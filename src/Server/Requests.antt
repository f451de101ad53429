-- ===== src/Server/Requests.antt =====
-- The requests of a client, with their responses.
use kb_pm.Prelude.{
  ℕ, zero, suc, ◌+◌, ◌-◌, none, some, List, [], ◌∷◌, ◌++◌, ltb, if◌then◌else◌, pos, is_nonzero,
  Outcome, done, undefined, Fault, ◌>>=◌, get_elem?, set, length,
}
use kb_pm.CString.{Str, text, show_int}
use kb_pm.System.{Log, Env}
use kb_pm.Process.{Process}
use kb_pm.Process.Table.{del_process_by_app_name}
use kb_pm.Process.Json.{create_process_list_json_str_with_status}
use kb_pm.Machine.{Machine}
use kb_pm.Server.{Server}
use kb_pm.Server.Lookup.{
  type_app_name, type_id, type_cmd, type_err, find_app, parse_process_and_process_type,
  get_pos_in_process_list, get_error_response,
}
use kb_pm.Server.Control.{server_start_process, server_stop_process, server_restart_process}

abbrev pub Response : Type 0
Response = Outcome Log (Str × Server)

-- `f(&process_list[i])`
unfoldable pub on_slot :
    (Process → Log → Outcome Log (Process × Log)) → ℕ → Server → Outcome Log (Process × Server)
on_slot f i s = elim (get_elem? s.slots i) [
  | none ↦ undefined Fault.out_of_bounds
  | some process ↦ f process s.log >>= λ (process', log').
      done (process', record s { slots = set s.slots i process'; log = log' })
]

-- `pos = get_pos_in_process_list(process); f(&process_list[pos]); sprintf(response, ...)`, where the
-- response is composed from the slot as `f` leaves it.
abbrev pub on_position :
    (Process → Log → Outcome Log (Process × Log)) → (Process → Str) → Process → Server → Response
on_position f say process s = do
  i ← get_pos_in_process_list s process
  (process', s') ← on_slot f i s
  done (say process', s')

-- `process_list[process_count] = *process` is a write past the array when the list is full.
unfoldable pub append_slot : Process → Server → Outcome Log Server
append_slot process s =
    if ltb s.process_count (length s.slots)
    then done (record s {
      slots = set s.slots s.process_count process;
      process_count = s.process_count + 1;
    })
    else undefined Fault.out_of_bounds

unfoldable pub server_start_process_with_cmd : Machine → Process → Server → Response
server_start_process_with_cmd m process s = do
  (started, log') ← server_start_process m.env process s.log
  let numbered : Process = record started { id = pos s.process_count }
  s' ← append_slot numbered (record s { log = log' })
  done (
    text "Starting " ++ numbered.app_name ++ text " with pid:" ++ show_int numbered.pid ++ text ".",
    s',
  )

-- The count falls for a program of the list, so it was not zero.
unfoldable pub server_remove_process : Machine → ℕ → Server → Outcome Log (Str × Server)
server_remove_process m i s = do
  (process, s') ← on_slot (server_stop_process m.env) i s
  (res, slots') ← del_process_by_app_name s'.slots process.app_name
  done (process.app_name, record s' { slots = slots'; process_count = s'.process_count - 1 })

unfoldable pub start_new : Machine → Process → Server → Response
start_new m process s = elim (find_app s process.app_name) [
  | some i ↦
      done (text "Duplicated name : " ++ process.app_name ++ text ". Please rename the program.", s)
  | none ↦ server_start_process_with_cmd m process s
]

unfoldable pub start_listed : Machine → Process → Server → Response
start_listed m process s =
    let started =
      on_position (server_start_process m.env)
        (λ process'.
          text "Started "
          ++ process.app_name
          ++ text " with pid:"
          ++ show_int process'.pid
          ++ text ".")
        process s in
    if is_nonzero process.is_running
    then done (process.app_name ++ text " have already been running.", s)
    else started

unfoldable pub server_start_process_and_get_response : Machine → Str → Server → Response
server_start_process_and_get_response m buffer s = do
  (type, process) ← parse_process_and_process_type m s buffer
  elim type [
    | type_cmd ↦ start_new m process s
    | type_id ↦ start_listed m process s
    | type_app_name ↦ start_listed m process s
    | type_err ↦ done (get_error_response buffer, s)
  ]

-- `default:` takes a document too: a program that is not in the list.
unfoldable pub on_listed : (Process → Server → Response) → Machine → Str → Server → Response
on_listed f m buffer s = do
  (type, process) ← parse_process_and_process_type m s buffer
  elim type [
    | type_cmd ↦ done (get_error_response buffer, s)
    | type_id ↦ f process s
    | type_app_name ↦ f process s
    | type_err ↦ done (get_error_response buffer, s)
  ]

unfoldable pub stop_listed : Machine → Process → Server → Response
stop_listed m process s =
    let stopped =
      on_position (server_stop_process m.env)
        (λ process'. text "Stopped " ++ process.app_name ++ text " success.") process s in
    if is_nonzero process.is_running
    then stopped
    else done (process.app_name ++ text " is not running.", s)

unfoldable pub restart_listed : Machine → Process → Server → Response
restart_listed m process s =
    let restarted =
      on_position (server_restart_process m.env)
        (λ process'.
          text "Restarted "
          ++ process.app_name
          ++ text " with "
          ++ show_int process'.pid
          ++ text ".")
        process s in
    if is_nonzero process.is_running
    then restarted
    else done (process.app_name ++ text " is not running.", s)

unfoldable pub remove_listed : Machine → Process → Server → Response
remove_listed m process s = do
  i ← get_pos_in_process_list s process
  (app_name, s') ← server_remove_process m i s
  done (
    if is_nonzero process.is_running
        then text "Stopped And Removed " ++ app_name ++ text "."
        else text "Removed " ++ app_name ++ text ".",
    s',
  )

unfoldable pub server_stop_process_and_get_response : Machine → Str → Server → Response
server_stop_process_and_get_response m = on_listed (stop_listed m) m

unfoldable pub server_restart_process_and_get_response : Machine → Str → Server → Response
server_restart_process_and_get_response m = on_listed (restart_listed m) m

unfoldable pub server_remove_process_and_get_response : Machine → Str → Server → Response
server_remove_process_and_get_response m = on_listed (remove_listed m) m

-- The loop of `server_start_all_process` and `server_stop_all_process` over the first `rounds` slots.
unfoldable pub for_each_slot :
    (Process → Log → Outcome Log (Process × Log))
    → ℕ
    → List Process
    → Log
    → Outcome Log (List Process × Log)
for_each_slot f zero slots log = done (slots, log)
for_each_slot f (suc rounds) [] log = undefined Fault.out_of_bounds
for_each_slot f (suc rounds) (process ∷ slots) log = do
  (process', log') ← f process log
  (slots', log'') ← for_each_slot f rounds slots log'
  done (process' ∷ slots', log'')

abbrev pub start_if_stopped : Env → Process → Log → Outcome Log (Process × Log)
start_if_stopped env process log =
    if is_nonzero process.is_running
    then done (process, log)
    else server_start_process env process log

abbrev pub stop_if_running : Env → Process → Log → Outcome Log (Process × Log)
stop_if_running env process log =
    if is_nonzero process.is_running
    then server_stop_process env process log
    else done (process, log)

unfoldable pub server_start_all_process : Machine → Server → Outcome Log Server
server_start_all_process m s = do
  (slots', log') ← for_each_slot (start_if_stopped m.env) s.process_count s.slots s.log
  done (record s { slots = slots'; log = log' })

unfoldable pub server_stop_all_process : Machine → Server → Outcome Log Server
server_stop_all_process m s = do
  (slots', log') ← for_each_slot (stop_if_running m.env) s.process_count s.slots s.log
  done (record s { slots = slots'; log = log' })

-- The response is left as it was when the document cannot be made.
unfoldable pub get_process_list_status : Machine → Str → Server → Response
get_process_list_status m response s =
    create_process_list_json_str_with_status m.json m.env s.slots s.process_count response s.log
    >>= λ (res, out). done (out.0, record s { slots = out.1; log = out.2 })

unfoldable pub count_running : ℕ → List Process → ℕ
count_running zero slots = 0
count_running (suc rounds) [] = 0
count_running (suc rounds) (process ∷ slots) =
    let rest = count_running rounds slots in
    if is_nonzero process.is_running then suc rest else rest

unfoldable pub get_running_process_count : Server → ℕ
get_running_process_count s = count_running s.process_count s.slots
