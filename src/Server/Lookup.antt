-- ===== src/Server/Lookup.antt =====
-- How the service finds the program that a request is about.
use kb_pm.Prelude.{
  ℕ, Option, none, some, ◌++◌, ltb, if◌then◌else◌, ℤ, pos, negsuc, eq_ℤ, Outcome, done, undefined,
  Fault, ◌>>=◌, get_elem?,
}
use kb_pm.CString.{Str, text, atoi}
use kb_pm.Utils.{is_number}
use kb_pm.System.{Log}
use kb_pm.Process.{Process}
use kb_pm.Process.Table.{index_from}
use kb_pm.Process.Json.{parse_process}
use kb_pm.Machine.{Machine}
use kb_pm.Server.{Server}

-- `id >= 0 && id < process_count`; `none` is -1.
abbrev pub in_list : ℤ → ℕ → Option ℕ
in_list (pos id) process_count = if ltb id process_count then some id else none
in_list (negsuc id) process_count = none

unfoldable pub get_process_id : ℕ → Str → Option ℕ
get_process_id process_count buffer =
    if is_number buffer then in_list (atoi buffer) process_count else none

-- TYPE_APP_NAME, TYPE_ID, TYPE_CMD, TYPE_ERR
pub data RequestType : Type 0 where
  type_app_name type_id type_cmd type_err : RequestType

-- The first program of that name.
abbrev pub find_app : Server → Str → Option ℕ
find_app s app_name = index_from 0 app_name s.process_count s.slots

-- `*process = process_list[i]`
unfoldable pub copy_slot : Server → ℕ → RequestType → Outcome Log (RequestType × Process)
copy_slot s i type = elim (get_elem? s.slots i) [
  | none ↦ undefined Fault.out_of_bounds
  | some process ↦ done (type, process)
]

-- The last attempt: the request is a document that describes a new program.
unfoldable pub parse_request : Machine → Server → Str → Outcome Log (RequestType × Process)
parse_request m s buffer =
    parse_process m.json m.fallthrough (m.stack s.log) buffer >>= λ (res, process).
    done (if eq_ℤ res (negsuc 0) then type_err else type_cmd, process)

unfoldable pub parse_process_and_process_type :
    Machine → Server → Str → Outcome Log (RequestType × Process)
parse_process_and_process_type m s buffer = elim (get_process_id s.process_count buffer) [
  | some id ↦ copy_slot s id type_id
  | none ↦ elim (find_app s buffer) [
    | some i ↦ copy_slot s i type_app_name
    | none ↦ parse_request m s buffer
  ]
]

-- With no program of that name the function ends without a `return`.
unfoldable pub get_pos_in_process_list : Server → Process → Outcome Log ℕ
get_pos_in_process_list s process = elim (find_app s process.app_name) [
  | none ↦ undefined Fault.no_value
  | some i ↦ done i
]

unfoldable pub get_error_response : Str → Str
get_error_response buffer =
    if is_number buffer
    then text "Cannot find id = " ++ buffer
    else text "Cannot find an app named : " ++ buffer
