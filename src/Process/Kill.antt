-- ===== src/Process/Kill.antt =====
-- The part of src/process.c that starts and ends processes, and reads how much memory they use.
use kb_pm.Prelude.{
  ℕ, zero, suc, Option, none, some, List, [], ◌∷◌, if◌then◌else◌, ℤ, negsuc, Outcome, done,
  replaced, undefined, Fault, ◌>>=◌,
}
use kb_pm.CString.{Str, text, eq_str, strcpy}
use kb_pm.System.{Log, Event, record_event, Env}
use kb_pm.Proc.{get_child_pids, parse_proc_status_val_by_tag, err_result, str_buffer_size}
use kb_pm.Process.{Process}

-- `execl` returns, with -1, only if it fails.
unfoldable pub exec_process : Env → Process → Log → Outcome Log (ℤ × Log)
exec_process env process log =
    let in_dir = record_event log (Event.changed_dir process.dir) in
    if env.execl in_dir process.cmd
    then replaced (record_event in_dir (Event.executed process.cmd))
    else done (negsuc 0, in_dir)

-- The loop over the children, with the call that it makes.
unfoldable pub kill_each : (ℤ → Log → Outcome Log Log) → List ℤ → Log → Outcome Log Log
kill_each kill_child [] log = done log
kill_each kill_child (pid ∷ pids) log = kill_child pid log >>= kill_each kill_child pids

-- A length of -1 is no children.
abbrev pub children_of : Option (List ℤ) → List ℤ
children_of none = []
children_of (some pids) = pids

-- The recursion runs on a bound on its depth.
unfoldable pub kill_process_by_pid : ℕ → Env → ℤ → Log → Outcome Log Log
kill_process_by_pid zero env pid log = undefined Fault.out_of_fuel
kill_process_by_pid (suc fuel) env pid log = do
  (pids, log') ← get_child_pids env pid log
  kill_each (kill_process_by_pid fuel env) (children_of pids) (record_event log' (Event.killed pid))

unfoldable pub kill_process : Env → Process → Log → Outcome Log Log
kill_process env process log = kill_process_by_pid env.depth env process.pid log

unfoldable pub get_mem_by_pid : Env → ℤ → Log → Outcome Log (Str × Log)
get_mem_by_pid env pid log = do
  (memory, log') ← parse_proc_status_val_by_tag env log pid (text "VmHWM")
  memory' ←
      if eq_str memory err_result
      then strcpy str_buffer_size (text "cannot get memory")
      else done memory
  done (memory', log')
