-- ===== src/Server/Effects.antt =====
-- What starting, stopping and restarting do to the record of one program.
use kb_pm.Prelude.{
  zero, suc, inr, ◌<◌, ◌≡◌, refl, arith, ℤ, pos, negsuc, pos_part, is_nonzero, done, >>=-eq-done,
  true, false,
}
use kb_pm.System.{Log, Event, record_event, Env}
use kb_pm.Process.{Process}
use kb_pm.Server.Control.{
  after_fork, server_start_process, server_stop_process, server_restart_process,
}
use kb_pm.Server.Spec.{app_of, IsSettled}
use kb_pm.Server.Contract.{halt, begin}

-- `q` describes the same program as `p`, in the same slot.
pub record IsSame (p q : Process) : Type 0 where
  pub name : q.app_name ≡ p.app_name
  pub cmd : q.cmd ≡ p.cmd
  pub dir : q.dir ≡ p.dir
  pub id : q.id ≡ p.id

-- The time that is asked for right after the `fork`.
abbrev pub time_after_fork : Env → Log → ℤ
time_after_fork env log = env.time (record_event log (Event.forked (env.fork log)))

-- `q` runs in the process that was forked at `log`; `count` restarts are counted.
pub record IsStarted (env : Env) (log : Log) (p q : Process) (count : ℤ) : Type 0 where
  pub same : IsSame p q
  pub running : q.is_running ≡ pos 1
  pub live : 0 < pos_part q.pid
  pub pid : q.pid ≡ env.fork log
  pub start : q.start_time ≡ time_after_fork env log
  pub times : q.restart_times ≡ count

pub record IsStopped (p q : Process) : Type 0 where
  pub same : IsSame p q
  pub running : q.is_running ≡ pos 0
  pub pid : q.pid ≡ pos 0
  pub times : q.restart_times ≡ pos 0
  pub start : q.start_time ≡ pos 0

after_fork-done :
    (env : Env) (p : Process) (log : Log) (answer : ℤ) (q : Process) (log' : Log)
    → answer ≡ env.fork log
    → after_fork env p (record_event log (Event.forked (env.fork log))) answer ≡ done (q, log')
    → IsStarted env log p q (pos 0)
unfolding after_fork
after_fork-done env p log (negsuc n) q log' e h = absurd (cc)
after_fork-done env p log (pos zero) q log' e h = absurd (ground arith)
after_fork-done env p log (pos (suc n)) q log' e h = ground arith

-- If the call returns, the program runs in the process that `fork` made.
pub server_start_process-done :
    (env : Env) (p : Process) (log : Log) (q : Process) (log' : Log)
    → server_start_process env p log ≡ done (q, log')
    → IsStarted env log p q (pos 0)
unfolding server_start_process
server_start_process-done env p log q log' h =
    after_fork-done env p log (env.fork log) q log' refl h

-- A running program is stopped.
pub server_stop_process-done :
    (env : Env) (p : Process) (log : Log) (q : Process) (log' : Log)
    → is_nonzero p.is_running ≡ true
    → server_stop_process env p log ≡ done (q, log')
    → IsStopped p q
unfolding server_stop_process
server_stop_process-done env p log q log' on h = ground arith

pub server_stop_process-idle :
    (env : Env) (p : Process) (log : Log)
    → is_nonzero p.is_running ≡ false
    → server_stop_process env p log ≡ done (p, log)
unfolding server_stop_process
server_stop_process-idle env p log off = rw off

-- A restart counts one restart, whatever was counted before.
pub server_restart_process-done :
    (env : Env) (p : Process) (log : Log) (q : Process) (log' : Log)
    → is_nonzero p.is_running ≡ true
    → server_restart_process env p log ≡ done (q, log')
    → (between : Log) × IsStarted env between p q (pos 1)
unfolding server_restart_process
server_restart_process-done env p log q log' on h =
    let (a, e, h') = >>=-eq-done (server_stop_process env p log) _ h in
    let (b, e', h'') = >>=-eq-done (server_start_process env a.0 a.1) _ h' in
    let halted = server_stop_process-done env p log a.0 a.1 on e in
    let begun = server_start_process-done env a.0 a.1 b.0 b.1 e' in (a.1, ground arith)

pub app_of-halt : (p q : Process) → IsStopped p q → app_of q ≡ halt (app_of p)
app_of-halt p q h = ground arith

pub app_of-begin :
    (env : Env) (log : Log) (p q : Process) (count : ℤ)
    → IsStarted env log p q count
    → app_of q ≡ begin (env.fork log) (time_after_fork env log) count (app_of p)
app_of-begin env log p q count h = ground arith

pub IsSettled-of_started :
    (env : Env) (log : Log) (p q : Process) (count : ℤ)
    → IsStarted env log p q count
    → IsSettled (app_of q)
IsSettled-of_started env log p q count h = inr (h.running, h.live)
