-- ===== src/Samples/Families.antt =====
-- The processes of the samples, and the theorems about ending them.
use kb_pm.Prelude.{
  get_elem?, done, length, ◌≤◌, ℕ, ◌≡◌, ◌<◌, refl, ap, Bool, true, false, ◌||◌, ◌==◌, none, some,
  Option, map, List, [], ◌∷◌, ◌++◌, arith, if◌then◌else◌, ℤ, pos, eq_ℤ, All,
}
use kb_pm.CString.{Str, text, starts_with}
use kb_pm.System.{Log, Env, Event, record_event}
use kb_pm.Proc.Lines.{IsLine, joined, parent_line}
use kb_pm.Proc.Children.{Task, entry_of, children, IsPid, IsTold, IsLook, IsSystem}
use kb_pm.Process.{Process}
use kb_pm.Process.Kill.{kill_process_by_pid}
use kb_pm.Process.Family.{Ends, kill_process_by_pid-Ends}
use kb_pm.Machine.{Machine}
use kb_pm.Server.Requests.{
  server_remove_process_and_get_response, server_start_process_and_get_response,
  server_restart_process_and_get_response, server_start_all_process,
  server_stop_process_and_get_response,
}
use kb_pm.Server.{Server}
use kb_pm.Server.Service.{before_wait, await_child}
use kb_pm.Server.Removes.{remove_returns}
use kb_pm.Server.Answers.{IsAnswered, requests_return}
use kb_pm.Server.Progress.{IsForking, rounds_return}
use kb_pm.Server.Revival.{IsContinued, await_child-continues}
use kb_pm.Server.Returns.{processes_of, Ended, stop_returns}
use kb_pm.Server.Spec.{app_of, apps}
use kb_pm.Server.Contract.{target}
use kb_pm.Samples.Machines.{machine, env, service, web}
use kb_pm.Samples.Opened.{opened}
use kb_pm.Samples.Runs.{service-IsValid}

-- 77 and 300 are children of 12. Who is signalled is gone, and init, 1, takes its children.
abbrev task : (pid ppid : ℕ) → Task
task pid ppid = record { pid = pid; ppid = ppid }

abbrev task_unless : Bool → Task → List Task
task_unless gone t = if gone then [] else t ∷ []

abbrev tasks_when : (gone12 gone77 gone300 : Bool) → List Task
tasks_when gone12 gone77 gone300 =
    let parent = if gone12 then 1 else 12 in
    task_unless gone12 (task 12 1)
    ++ task_unless gone77 (task 77 parent)
    ++ task_unless gone300 (task 300 parent)

abbrev kills : ℕ → Event → Bool
kills p (Event.killed q) = eq_ℤ q (pos p)
kills p _ = false

abbrev is_gone : ℕ → Log → Bool
is_gone p [] = false
is_gone p (e ∷ log) = kills p e || is_gone p log

abbrev tasks : Log → List Task
tasks log = tasks_when (is_gone 12 log) (is_gone 77 log) (is_gone 300 log)

abbrev status_in : List Task → ℤ → Option Str
status_in [] p = none
status_in (t ∷ ts) p =
    let rest = status_in ts p in
    if eq_ℤ (pos t.pid) p
    then some (joined (text "Name:  bash" ∷ parent_line t.ppid ∷ []))
    else rest

abbrev living_env : Env
living_env = record env {
  proc_dir = λ log.
      some ((record { d_name = text "self"; is_dir = true } ∷ []) ++ map entry_of (tasks log));
  status = λ log p. status_in (tasks log) p;
}

abbrev living : Machine
living = record machine { env = living_env }

-- 1 is the parent of 12, and 12 that of the others.
abbrev height : Log → ℕ → ℕ
height log p = if p == 1 then 2 else if p == 12 then 1 else 0

no_kill : (p : ℕ) (e : Event) → IsLook e → kills p e ≡ false
no_kill p _ IsLook.lists = refl
no_kill p _ IsLook.enters = refl
no_kill p _ IsLook.reads = refl

is_gone-look :
    (p : ℕ) (log : Log) (e : Event) → IsLook e → is_gone p (log ++ e ∷ []) ≡ is_gone p log
is_gone-look p [] e look = rw (no_kill p e look)
is_gone-look p (x ∷ log) e look = ap (λ b. kills p x || b) (is_gone-look p log e look)

tasks-look : (log : Log) (e : Event) → IsLook e → tasks (record_event log e) ≡ tasks log
tasks-look log e look =
    rw (is_gone-look 12 log e look, is_gone-look 77 log e look, is_gone-look 300 log e look)

pids_when : (a b c : Bool) → All IsPid (tasks_when a b c)
pids_when a b c = ground arith

higher_when :
    (a b c : Bool) (p : ℕ) → All (λ q. height [] q < height [] p) (children (tasks_when a b c) p)
higher_when a b c p = ground arith

small_when : (a b c : Bool) → length (tasks_when a b c) ≤ 4096
small_when a b c = ground arith

abbrev name_line : Str
name_line = text "Name:  bash"

name_line-IsLine : IsLine name_line
name_line-IsLine = (ground arith, omega arith)

parent_1-IsLine : IsLine (parent_line 1)
unfolding opened
parent_1-IsLine = (ground arith, omega arith)

parent_12-IsLine : IsLine (parent_line 12)
unfolding opened
parent_12-IsLine = (ground arith, omega arith)

IsTold-task :
    (sys : Env) (log : Log) (t : Task)
    → sys.status log (pos t.pid) ≡ some (joined (name_line ∷ parent_line t.ppid ∷ []))
    → IsLine (parent_line t.ppid)
    → IsTold sys log t
unfolding starts_with
IsTold-task sys log t opens line = record {
  before = name_line ∷ [];
  after = [];
  opens = opens;
  other = (refl, tt);
  lines = (name_line-IsLine, (line, tt));
}

IsTold-tasks_when :
    (sys : Env) (log : Log) (a b c : Bool)
    → ((p : ℤ) → sys.status log p ≡ status_in (tasks_when a b c) p)
    → All (IsTold sys log) (tasks_when a b c)
IsTold-tasks_when sys log false false false e = (
  IsTold-task sys log (task 12 1) (e (pos 12)) parent_1-IsLine,
  (
    IsTold-task sys log (task 77 12) (e (pos 77)) parent_12-IsLine,
    (IsTold-task sys log (task 300 12) (e (pos 300)) parent_12-IsLine, tt),
  ),
)
IsTold-tasks_when sys log false false true e = (
  IsTold-task sys log (task 12 1) (e (pos 12)) parent_1-IsLine,
  (IsTold-task sys log (task 77 12) (e (pos 77)) parent_12-IsLine, tt),
)
IsTold-tasks_when sys log false true false e = (
  IsTold-task sys log (task 12 1) (e (pos 12)) parent_1-IsLine,
  (IsTold-task sys log (task 300 12) (e (pos 300)) parent_12-IsLine, tt),
)
IsTold-tasks_when sys log false true true e =
    (IsTold-task sys log (task 12 1) (e (pos 12)) parent_1-IsLine, tt)
IsTold-tasks_when sys log true false false e = (
  IsTold-task sys log (task 77 1) (e (pos 77)) parent_1-IsLine,
  (IsTold-task sys log (task 300 1) (e (pos 300)) parent_1-IsLine, tt),
)
IsTold-tasks_when sys log true false true e =
    (IsTold-task sys log (task 77 1) (e (pos 77)) parent_1-IsLine, tt)
IsTold-tasks_when sys log true true false e =
    (IsTold-task sys log (task 300 1) (e (pos 300)) parent_1-IsLine, tt)
IsTold-tasks_when sys log true true true e = tt

living-IsSystem : IsSystem living_env tasks height
living-IsSystem = record {
  others = λ log. record { d_name = text "self"; is_dir = true } ∷ [];
  listed = λ log. refl;
  no_process = λ log. ((b's', text "elf", refl, refl), tt);
  pids = λ log. pids_when (is_gone 12 log) (is_gone 77 log) (is_gone 300 log);
  told = λ log.
      IsTold-tasks_when living_env log (is_gone 12 log) (is_gone 77 log) (is_gone 300 log)
        (λ p. refl);
  small = λ log. small_when (is_gone 12 log) (is_gone 77 log) (is_gone 300 log);
  kept = tasks-look;
  higher = λ log. higher_when (is_gone 12 log) (is_gone 77 log) (is_gone 300 log);
  looked_at = λ log e look p. omega arith;
  signalled = λ log pid p. omega arith;
}

kill_process_by_pid-Ends_example :
    (last : Log) × (kill_process_by_pid 2 living_env (pos 12) [] ≡ done last)
    × Ends tasks [] (12 ∷ []) last
kill_process_by_pid-Ends_example =
    kill_process_by_pid-Ends living_env tasks height living-IsSystem 2 12 [] (omega arith)

env-IsForking : IsForking env
env-IsForking log = omega arith

means_web : target (text "0") (apps service) ≡ some (app_of web)
unfolding opened
means_web = refl

stop_returns_example :
    Ended living tasks height service
      (processes_of (app_of web))
      (server_stop_process_and_get_response living (text "0") service)
stop_returns_example =
    stop_returns living tasks height service (text "0") (app_of web) service-IsValid living-IsSystem
      means_web (omega arith)

requests_return_example :
    IsAnswered (server_start_process_and_get_response living (text "0") service)
    × IsAnswered (server_restart_process_and_get_response living (text "0") service)
requests_return_example =
    requests_return living tasks height service (text "0") (app_of web) service-IsValid
      env-IsForking living-IsSystem (omega arith) means_web

remove_returns_example :
    IsAnswered (server_remove_process_and_get_response living (text "0") service)
remove_returns_example =
    remove_returns living tasks height service (text "0") (app_of web) service-IsValid (omega arith)
      living-IsSystem (omega arith) means_web

rounds_return_example :
    ((s' : Server) × (server_start_all_process machine service ≡ done s'))
    × ((s' : Server) × (await_child machine service ≡ done s'))
rounds_return_example = rounds_return machine service service-IsValid env-IsForking

-- The process of `web` ends: `wait` answers 12.
await_child-continues_example :
    (s' : Server) × (q : Process) × (await_child machine service ≡ done s')
    × (get_elem? s'.slots 0 ≡ some q)
    × IsContinued env (env.time (record_event (before_wait service) (Event.waited web.pid))) web q
await_child-continues_example =
    await_child-continues machine service 0 web service-IsValid env-IsForking (omega arith) refl
      refl refl tt
