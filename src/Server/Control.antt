-- ===== src/Server/Control.antt =====
-- Starting and stopping one program of the list. The messages for syslog are left out.
use kb_pm.Prelude.{
  ℕ, zero, suc, if◌then◌else◌, ℤ, pos, negsuc, suc_ℤ, is_nonzero, Outcome, done, exited, ◌>>=◌,
}
use kb_pm.CString.{Str, text}
use kb_pm.System.{Log, Event, record_event, Env}
use kb_pm.Process.{Process}
use kb_pm.Process.Kill.{exec_process, kill_process}

-- LOCAL_SOCKET_FILE
abbrev pub local_socket_file : Str
local_socket_file = text "/tmp/kbpm.sock"

-- EXIT_SUCCESS
abbrev pub exit_success : ℕ
exit_success = 0

-- EXIT_FAILURE
abbrev pub exit_failure : ℕ
exit_failure = 1

-- What follows the `fork`, by its answer: it failed; this is the child; this is the service, and the
-- answer is the child's number.
unfoldable pub after_fork : Env → Process → Log → ℤ → Outcome Log (Process × Log)
after_fork env process log (negsuc n) =
    exited exit_failure (record_event log (Event.unlinked local_socket_file))
after_fork env process log (pos zero) =
    exec_process env process (record_event log Event.ignored_signals) >>= λ (res, log').
    exited exit_failure log'
after_fork env process log (pos (suc n)) = done (
  record process {
    pid = pos (suc n);
    is_running = pos 1;
    restart_times = pos 0;
    start_time = env.time log;
  },
  record_event log (Event.read_clock (env.time log)),
)

unfoldable pub server_start_process : Env → Process → Log → Outcome Log (Process × Log)
server_start_process env process log =
    after_fork env process (record_event log (Event.forked (env.fork log))) (env.fork log)

unfoldable pub server_stop_process : Env → Process → Log → Outcome Log (Process × Log)
server_stop_process env process log =
    let stopped = do
      let marked : Process = record process { is_running = pos 0 }
      log' ← kill_process env marked log
      done (record marked { pid = pos 0; start_time = pos 0; restart_times = pos 0 }, log')
    in if is_nonzero process.is_running then stopped else done (process, log)

unfoldable pub server_restart_process : Env → Process → Log → Outcome Log (Process × Log)
server_restart_process env process log = do
  (stopped, log') ← server_stop_process env process log
  (started, log'') ← server_start_process env stopped log'
  done (record started { restart_times = suc_ℤ started.restart_times }, log'')
