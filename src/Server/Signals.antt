-- ===== src/Server/Signals.antt =====
-- To which processes the service sends signals: what it does to one program, and to a slot.
pub mod Requests
pub mod Rounds
pub mod Histories
use kb_pm.Prelude.{
  ℕ, zero, suc, ◌≡◌, ◌<◌, ◌⊎◌, inl, inr, Option, Option-cases, none, some, List, [], ◌∷◌, All, ℤ,
  pos, negsuc, suc_ℤ, pos_part, is_nonzero, Outcome, done, exited, undefined, Fault, ◌>>=◌,
  if◌then◌else◌, true, false, arith, get_elem?, set,
}
use kb_pm.CString.{Str}
use kb_pm.System.{Log, Event, record_event, Env}
use kb_pm.Proc.Signals.{
  IsPid, AllAimed, AllAimed-record, Returning, bind-Returning, done-Returning, undefined-Returning,
  if-Returning,
}
use kb_pm.Process.{Process}
use kb_pm.Process.Kill.{exec_process, kill_process}
use kb_pm.Process.Signals.{kill_process_by_pid-AllAimed}
use kb_pm.Server.{Server}
use kb_pm.Server.Control.{
  exit_failure, after_fork, server_start_process, server_stop_process, server_restart_process,
}
use kb_pm.Server.Requests.{on_slot}
use kb_pm.Server.Spec.{app_of, IsSettled, IsValid}
use kb_pm.Server.Entries.{IsSettled-at}

-- The log that comes with a program, and with a service.
abbrev pub AimedProcess : Process × Log → Type 0
AimedProcess a = AllAimed a.1

abbrev pub AimedServer : {A : Type 0} → A × Server → Type 0
AimedServer a = AllAimed a.1.log

-- A call on one program that is settled sends its signals to single processes.
abbrev pub IsAimedCall : (Process → Log → Outcome Log (Process × Log)) → Type 0
IsAimedCall f =
    (p : Process) (log : Log)
    → IsSettled (app_of p)
    → AllAimed log
    → Returning AimedProcess (f p log)

exited-Returning : {A : Type 0} (Q : A → Type 0) (n : ℕ) (w : Log) → Returning Q (exited n w)
exited-Returning Q n w a e = absurd (cc)

after_fork-AllAimed :
    (env : Env) (p : Process) (log : Log) (answer : ℤ)
    → AllAimed log
    → Returning AimedProcess (after_fork env p log answer)
unfolding after_fork
after_fork-AllAimed env p log (negsuc n) h = exited-Returning AimedProcess exit_failure _
after_fork-AllAimed env p log (pos zero) h =
    bind-Returning (λ a. Unit) AimedProcess
      (exec_process env p (record_event log Event.ignored_signals)) _ (λ a e. tt)
      (λ a u. exited-Returning AimedProcess exit_failure a.1)
after_fork-AllAimed env p log (pos (suc n)) h =
    done-Returning AimedProcess _ (AllAimed-record log (Event.read_clock (env.time log)) h tt)

pub server_start_process-AllAimed :
    (env : Env) (p : Process) (log : Log)
    → AllAimed log
    → Returning AimedProcess (server_start_process env p log)
unfolding server_start_process
server_start_process-AllAimed env p log h =
    after_fork-AllAimed env p (record_event log (Event.forked (env.fork log))) (env.fork log)
      (AllAimed-record log (Event.forked (env.fork log)) h tt)

-- A settled program that runs has a process.
pub settled_pid :
    (p : Process) → IsSettled (app_of p) → is_nonzero p.is_running ≡ true → IsPid p.pid
settled_pid p (inl (off, none_pid)) on = absurd (ground arith)
settled_pid p (inr (running, live)) on = live

pub server_stop_process-AllAimed : (env : Env) → IsAimedCall (server_stop_process env)
unfolding server_stop_process kill_process
server_stop_process-AllAimed env p log settled h =
    if-Returning AimedProcess (is_nonzero p.is_running) _ (done (p, log))
      (λ on.
        bind-Returning AllAimed AimedProcess
          (kill_process env (record p { is_running = pos 0 }) log)
          (λ log'. done (
            record p { is_running = pos 0; pid = pos 0; start_time = pos 0; restart_times = pos 0 },
            log',
          ))
          (kill_process_by_pid-AllAimed env.depth env p.pid log (settled_pid p settled on) h)
          (λ log' h'. done-Returning AimedProcess _ h'))
      (λ off. done-Returning AimedProcess (p, log) h)

pub server_restart_process-AllAimed : (env : Env) → IsAimedCall (server_restart_process env)
unfolding server_restart_process
server_restart_process-AllAimed env p log settled h =
    bind-Returning AimedProcess AimedProcess (server_stop_process env p log) _
      (server_stop_process-AllAimed env p log settled h)
      (λ a ha.
        bind-Returning AimedProcess AimedProcess (server_start_process env a.0 a.1)
          (λ b. done (record b.0 { restart_times = suc_ℤ b.0.restart_times }, b.1))
          (server_start_process-AllAimed env a.0 a.1 ha) (λ b hb. done-Returning AimedProcess _ hb))

-- A call on a program of a valid service.
pub on_slot-AllAimed :
    (f : Process → Log → Outcome Log (Process × Log)) (i : ℕ) (s : Server)
    → IsAimedCall f
    → IsValid s
    → i < s.process_count
    → AllAimed s.log
    → Returning AimedServer (on_slot f i s)
unfolding on_slot
on_slot-AllAimed f i s aimed valid lt h a e = elim (Option-cases (get_elem? s.slots i)) [
  | inl outside ↦ absurd (ground arith)
  | inr (p, at) ↦
      bind-Returning AimedProcess AimedServer (f p s.log)
        (λ b. done (b.0, record s { slots = set s.slots i b.0; log = b.1 }))
        (aimed p s.log (IsSettled-at s.process_count s.slots i p valid.good lt at) h)
        (λ b hb. done-Returning AimedServer _ hb) a (rw (on_slot, at) at e)
]
