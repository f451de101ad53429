-- ===== src/Process/Signals.antt =====
-- To which processes signals are sent when a process is killed, and all that descend from it.
use kb_pm.Prelude.{
  ℕ, zero, suc, Option, none, some, List, [], ◌∷◌, All, ℤ, Outcome, done, Fault, if◌then◌else◌,
}
use kb_pm.CString.{text, eq_str, strcpy}
use kb_pm.System.{Log, Event, record_event, Env}
use kb_pm.Proc.{get_child_pids, parse_proc_status_val_by_tag, err_result, str_buffer_size}
use kb_pm.Proc.Signals.{
  IsPid, AllAimed, AllAimed-record, Returning, bind-Returning, done-Returning, undefined-Returning,
  ListedAimed, get_child_pids-ListedAimed, parse_proc_status_val_by_tag-AllAimed,
}
use kb_pm.Process.Kill.{kill_each, children_of, kill_process_by_pid, get_mem_by_pid}

kill_each-AllAimed :
    (kill_child : ℤ → Log → Outcome Log Log)
    → ((pid : ℤ) (log : Log) → IsPid pid → AllAimed log → Returning AllAimed (kill_child pid log))
    → (pids : List ℤ) (log : Log) → All IsPid pids
    → AllAimed log
    → Returning AllAimed (kill_each kill_child pids log)
unfolding kill_each
kill_each-AllAimed kill_child aimed [] log hs h = done-Returning AllAimed log h
kill_each-AllAimed kill_child aimed (pid ∷ pids) log hs h =
    bind-Returning AllAimed AllAimed (kill_child pid log) (kill_each kill_child pids)
      (aimed pid log hs.0 h) (λ log' h'. kill_each-AllAimed kill_child aimed pids log' hs.1 h')

-- What is found of children, before the signal is sent.
children_of-AllAimed :
    (found : Option (List ℤ) × Log)
    → ListedAimed found
    → All IsPid (children_of found.0) × AllAimed found.1
children_of-AllAimed (none, log) h = (tt, h)
children_of-AllAimed (some pids, log) h = h

pub kill_process_by_pid-AllAimed :
    (fuel : ℕ) (env : Env) (pid : ℤ) (log : Log)
    → IsPid pid
    → AllAimed log
    → Returning AllAimed (kill_process_by_pid fuel env pid log)
unfolding kill_process_by_pid
kill_process_by_pid-AllAimed zero env pid log hp h = undefined-Returning AllAimed Fault.out_of_fuel
kill_process_by_pid-AllAimed (suc fuel) env pid log hp h =
    bind-Returning ListedAimed AllAimed (get_child_pids env pid log)
      (λ found.
        kill_each (kill_process_by_pid fuel env) (children_of found.0)
          (record_event found.1 (Event.killed pid)))
      (get_child_pids-ListedAimed env pid log h)
      (λ found listed.
        (let (hs, h') = children_of-AllAimed found listed in
          kill_each-AllAimed (kill_process_by_pid fuel env)
            (λ child log'. kill_process_by_pid-AllAimed fuel env child log') (children_of found.0)
            (record_event found.1 (Event.killed pid)) hs
            (AllAimed-record found.1 (Event.killed pid) h' hp)))

pub get_mem_by_pid-AllAimed :
    (env : Env) (pid : ℤ) (log : Log)
    → AllAimed log
    → Returning (λ a. AllAimed a.1) (get_mem_by_pid env pid log)
unfolding get_mem_by_pid
get_mem_by_pid-AllAimed env pid log h =
    bind-Returning (λ a. AllAimed a.1) (λ a. AllAimed a.1)
      (parse_proc_status_val_by_tag env log pid (text "VmHWM")) _
      (parse_proc_status_val_by_tag-AllAimed env log pid (text "VmHWM") h)
      (λ a ha.
        bind-Returning (λ m. Unit) (λ a. AllAimed a.1)
          (if eq_str a.0 err_result
            then strcpy str_buffer_size (text "cannot get memory")
            else done a.0)
          (λ m. done (m, a.1)) (λ m e. tt) (λ m u. done-Returning (λ a. AllAimed a.1) (m, a.1) ha))
