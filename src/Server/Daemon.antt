-- ===== src/Server/Daemon.antt =====
-- How the service comes to run in the background, before it looks at its programs: the configuration
-- file, the daemon, the mutex and the thread for the clients.
pub mod SetUp
use kb_pm.Prelude.{
  ℕ, zero, suc, Option, some, none, List, [], ◌∷◌, ◌++◌, if◌then◌else◌, ℤ, pos, negsuc, is_nonzero,
  Outcome, done, exited, undefined, Fault, ◌>>=◌,
}
use kb_pm.CString.{Str, text, strcpy}
use kb_pm.System.{Log, Event, record_event, Env}
use kb_pm.Proc.{str_buffer_size}
use kb_pm.Server.Control.{local_socket_file, exit_success, exit_failure}

-- CONFIG_PATH
abbrev pub config_path : Str
config_path = text "/.kbpm/process_list.json"

-- CONFIG_DIR
abbrev pub config_dir : Str
config_dir = text "/.kbpm"

-- `sprintf(path, "%s%s", getenv("HOME"), name)`
unfoldable pub in_home : Env → Str → Outcome Log Str
in_home env name = elim env.home [
  | none ↦ undefined Fault.null_pointer
  | some home ↦ strcpy str_buffer_size (home ++ name)
]

unfoldable pub get_config_path : Env → Outcome Log Str
get_config_path env = in_home env config_path

unfoldable pub get_config_dir : Env → Outcome Log Str
get_config_dir env = in_home env config_dir

abbrev pub no_home : Str
no_home = text "You have to set the env:$HOME" ++ 0x0a ∷ []

-- The answers of `mkdir` and `open` are not looked at.
unfoldable pub create_config_file : Env → Log → Outcome Log Log
create_config_file env log = elim env.home [
  | none ↦ exited exit_failure (record_event log (Event.complained no_home))
  | some home ↦ do
    path ← get_config_path env
    dir ← get_config_dir env
    done (
        if env.exists log path
        then log
        else record_event (record_event log (Event.made_dir dir)) (Event.created_file path))
]

unfoldable pub ignore_signals : Log → Log
ignore_signals log = record_event log Event.ignored_signals

-- `perror` adds the reason to the message. What follows a `fork` of `init_daemon`: the parent exits, and the child goes on.
unfoldable pub leave_parent : Log → ℤ → Outcome Log Log
leave_parent log (negsuc n) =
    exited exit_failure (record_event log (Event.complained (text "can not fork(), error:")))
leave_parent log (pos zero) = done log
leave_parent log (pos (suc n)) = exited exit_success log

unfoldable pub fork_and_leave : Env → Log → Outcome Log Log
fork_and_leave env log =
    leave_parent (record_event log (Event.forked (env.fork log))) (env.fork log)

-- What follows `setsid`.
unfoldable pub check_session : Log → ℤ → Outcome Log Log
check_session log (negsuc n) =
    exited exit_failure (record_event log (Event.complained (text "can not setsid(), error:")))
check_session log (pos n) = done log

-- The files are closed, and the mode mask is set, besides.
unfoldable pub init_daemon : Env → Log → Outcome Log Log
init_daemon env log = do
  in_child ← fork_and_leave env (ignore_signals log)
  in_session ←
      check_session (record_event in_child (Event.made_session (env.setsid in_child)))
        (env.setsid in_child)
  detached ← fork_and_leave env in_session
  done (record_event detached (Event.changed_dir (text "/tmp")))

-- The part of `service_start` between `init_daemon` and the loop over the saved programs.
unfoldable pub init_threads : Env → Log → Outcome Log Log
init_threads env log =
    let with_mutex = record_event log (Event.made_mutex (env.pthread_mutex_init log)) in
    let with_thread = record_event with_mutex (Event.made_thread (env.pthread_create with_mutex)) in
    if is_nonzero (env.pthread_mutex_init log)
    then exited exit_failure with_mutex
    else if is_nonzero (env.pthread_create with_mutex)
    then exited exit_failure with_thread
    else done with_thread

-- `kbpm service clean`
unfoldable pub service_clean : {A : Type 0} → Log → Outcome Log A
service_clean log = exited exit_success (record_event log (Event.unlinked local_socket_file))
