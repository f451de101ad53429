-- ===== src/Server/Service.antt =====
-- The two threads of the service: the one that serves clients, and the one that waits for children.
use kb_pm.Prelude.{
  ℕ, zero, suc, Bool, Option, List, [], ◌∷◌, ◌==◌, ◌||◌, if◌then◌else◌, ℤ, pos, negsuc, eq_ℤ, suc_ℤ,
  is_nonzero, Outcome, done, undefined, Fault, ◌>>=◌, replicate,
}
use kb_pm.CString.{Str, text, eq_str}
use kb_pm.System.{Log, Event, record_event, Env}
use kb_pm.Process.{Process, list_size, buffer_size}
use kb_pm.Process.Table.{get_process_list_count}
use kb_pm.Process.Json.{create_process_list_json_str, parse_process_list_from_path}
use kb_pm.Machine.{Machine}
use kb_pm.Server.{Server}
use kb_pm.Server.Control.{server_start_process}
use kb_pm.Server.Requests.{
  Response, server_start_process_and_get_response, server_stop_process_and_get_response,
  server_restart_process_and_get_response, server_remove_process_and_get_response,
  server_start_all_process, server_stop_all_process, get_process_list_status,
  get_running_process_count,
}
use kb_pm.Server.Daemon.{get_config_path, create_config_file, init_daemon, init_threads}
use kb_pm.Server.Wire.{c_string, read_into, pong_and_receive_data}

-- `save_process_list` of process.c: all slots up to the first that is empty. If the document cannot
-- be made the buffer is written as it is.
unfoldable pub save_process_list : Machine → Str → List Process → Log → Outcome Log Log
save_process_list m path slots log = do
  (res, buffer) ←
      create_process_list_json_str m.json slots (get_process_list_count slots) (m.stale log)
  let written = record_event log (Event.wrote_file path buffer)
  if m.env.writable log path then done written else undefined Fault.null_pointer

unfoldable pub is_command : List ℕ → Str → Bool
is_command buffer command = eq_str (c_string buffer) command

-- The chain of comparisons: the buffer holds what the client wrote first, `message` is what it
-- writes after the pong, and `response` is what the response holds before.
unfoldable pub answer : Machine → List ℕ → Str → Str → Server → Response
answer m buffer message response s =
    let argument = c_string (pong_and_receive_data buffer message) in
    if is_command buffer (text "startall")
    then server_start_all_process m s >>= (λ s'. done (text "Start All Okay.", s'))
    else if is_command buffer (text "stopall")
    then server_stop_all_process m s >>= (λ s'. done (text "Stop All Okay.", s'))
    else if is_command buffer (text "status")
    then get_process_list_status m response s
    else if is_command buffer (text "start")
    then server_start_process_and_get_response m argument s
    else if is_command buffer (text "stop")
    then server_stop_process_and_get_response m argument s
    else if is_command buffer (text "restart")
    then server_restart_process_and_get_response m argument s
    else if is_command buffer (text "remove")
    then server_remove_process_and_get_response m argument s
    else if is_command buffer (text "ping")
    then done (text "pong", s)
    else done (text "error command", s)

-- One round of the loop of `server_socket_handle_thread_func`, between lock and unlock: a client
-- writes `first`, and `second` after the pong. The buffer and the response come back cleared.
unfoldable pub serve_client :
    Machine → Str → Str → Str → List ℕ × Str → Server → Outcome Log ((List ℕ × Str) × Server)
serve_client m config_path first second (buffer, response) s = do
  (response', s') ← answer m (read_into buffer first) second response s
  log' ← save_process_list m config_path s'.slots (record_event s'.log (Event.answered response'))
  done ((replicate buffer_size 0, []), record s' { log = log' })

-- The restart of a program that ended: the count of restarts goes on.
unfoldable pub revive : Env → Process → Log → Outcome Log (Process × Log)
revive env process log = do
  (started, log') ← server_start_process env process log
  done (
    record started { restart_times = suc_ℤ process.restart_times },
    record_event log' (Event.slept 100000),
  )

-- The slot that was visited, before what the rest of the loop makes of the others.
abbrev pub put_before :
    Process → Outcome Log (List Process × Log) → Outcome Log (List Process × Log)
put_before process rest = rest >>= λ (slots', log'). done (process ∷ slots', log')

-- The loop over the first `rounds` slots after `wait` answered `pid`: a program that has started
-- within this second is given up, which ends the loop, and any other is started again.
unfoldable pub reap : Env → ℤ → ℕ → List Process → Log → Outcome Log (List Process × Log)
reap env pid zero slots log = done (slots, log)
reap env pid (suc rounds) [] log = undefined Fault.out_of_bounds
reap env pid (suc rounds) (process ∷ slots) log =
    let timed = record_event log (Event.read_clock (env.time log)) in
    let given_up : Process = record process { is_running = pos 0; pid = pos 0 } in
    let passed = put_before process (reap env pid rounds slots log) in
    let revived = revive env process timed >>= λ (process', log').
    put_before process' (reap env pid rounds slots log') in
    if eq_ℤ process.pid pid
    then if is_nonzero process.is_running
      then if eq_ℤ process.start_time (env.time log)
        then done (given_up ∷ slots, timed)
        else revived
      else done (process ∷ slots, log)
    else passed

-- With no program running the service sleeps before it waits.
unfoldable pub before_wait : Server → Log
before_wait s =
    if s.process_count == 0 || get_running_process_count s == 0
    then record_event s.log (Event.slept 100000)
    else s.log

-- One round of the loop of `service_start`.
unfoldable pub await_child : Machine → Server → Outcome Log Server
await_child m s =
    let pid = m.env.wait (before_wait s) in
    reap m.env pid s.process_count s.slots (record_event (before_wait s) (Event.waited pid))
    >>= λ (slots', log''). done (record s { slots = slots'; log = log'' })

-- `process->id = i; if(!process->is_running) continue; server_start_process(process, 1);`
unfoldable pub start_saved : Env → ℕ → ℕ → List Process → Log → Outcome Log (List Process × Log)
start_saved env i zero slots log = done (slots, log)
start_saved env i (suc rounds) [] log = undefined Fault.out_of_bounds
start_saved env i (suc rounds) (process ∷ slots) log = do
  let numbered : Process = record process { id = pos i }
  (process', log') ←
      if is_nonzero process.is_running
      then server_start_process env numbered log
      else done (numbered, log)
  (slots', log'') ← start_saved env (suc i) rounds slots log'
  done (process' ∷ slots', log'')

-- A static array is zero at first.
abbrev pub zero_process : Process
zero_process = record {
  app_name = [];
  cmd = [];
  dir = [];
  pid = pos 0;
  is_running = pos 0;
  id = pos 0;
  memory = [];
  restart_times = pos 0;
  start_time = pos 0;
}

-- `if (process_count == -1) process_count = 0;`
abbrev pub loaded_count : ℤ → ℕ
loaded_count (pos n) = n
loaded_count (negsuc n) = 0

-- `service_start` up to its loop, on what the configuration file holds when it is opened, when no
-- client is served before the loop. The thread for the clients runs by then, and the loop over the
-- saved programs does not hold the mutex: a client that comes so early is not modelled.
unfoldable pub service_start : Machine → Option Str → Log → Outcome Log Server
service_start m config log = do
  with_config ← create_config_file m.env log
  config_path ← get_config_path m.env
  (res, slots) ←
      parse_process_list_from_path m.json m.fallthrough config (m.stale log)
        (replicate list_size zero_process)
  in_background ← init_daemon m.env with_config
  ready ← init_threads m.env in_background
  (slots', log') ← start_saved m.env 0 (loaded_count res) slots ready
  done (record { slots = slots'; process_count = loaded_count res; log = log' })
