-- ===== src/Server/Contract.antt =====
-- The contract of the requests: what a client is told, and what becomes of the list of programs.
use kb_pm.Prelude.{
  ℕ, Option, none, some, List, [], ◌∷◌, ◌++◌, if◌then◌else◌, length, get_elem?, ℤ, pos, is_nonzero,
}
use kb_pm.CString.{Str, text, show_int}
use kb_pm.Server.Lookup.{get_process_id, get_error_response}
use kb_pm.Server.Spec.{App, find_from, replace, erase}

-- The program that a request is about: the one with that id, or else the first of that name.
unfoldable pub target : Str → List App → Option App
target buffer list = elim (get_process_id (length list) buffer) [
  | some id ↦ get_elem? list id
  | none ↦ elim (find_from 0 buffer list) [ some i ↦ get_elem? list i | none ↦ none ]
]

abbrev pub halt : App → App
halt a = record a { is_running = pos 0; pid = pos 0; restart_times = pos 0; start_time = pos 0 }

-- The program runs since `time` in the process `pid`, after `count` restarts.
abbrev pub begin : ℤ → ℤ → ℤ → App → App
begin pid time count a = record a {
  is_running = pos 1;
  pid = pid;
  restart_times = count;
  start_time = time;
}

abbrev pub stop_found : Str → List App → Option App → Str × List App
stop_found buffer list none = (get_error_response buffer, list)
stop_found buffer list (some a) =
    if is_nonzero a.is_running
    then (text "Stopped " ++ a.name ++ text " success.", replace a.name (halt a) list)
    else (a.name ++ text " is not running.", list)

abbrev pub stop_spec : Str → List App → Str × List App
stop_spec buffer list = stop_found buffer list (target buffer list)

abbrev pub remove_found : Str → List App → Option App → Str × List App
remove_found buffer list none = (get_error_response buffer, list)
remove_found buffer list (some a) = (
  if is_nonzero a.is_running
      then text "Stopped And Removed " ++ a.name ++ text "."
      else text "Removed " ++ a.name ++ text ".",
  erase a.name list,
)

abbrev pub remove_spec : Str → List App → Str × List App
remove_spec buffer list = remove_found buffer list (target buffer list)

abbrev pub restart_found : ℤ → ℤ → Str → List App → Option App → Str × List App
restart_found pid time buffer list none = (get_error_response buffer, list)
restart_found pid time buffer list (some a) =
    if is_nonzero a.is_running
    then (
      text "Restarted " ++ a.name ++ text " with " ++ show_int pid ++ text ".",
      replace a.name (begin pid time (pos 1) a) list,
    )
    else (a.name ++ text " is not running.", list)

abbrev pub restart_spec : ℤ → ℤ → Str → List App → Str × List App
restart_spec pid time buffer list = restart_found pid time buffer list (target buffer list)

abbrev pub start_spec : ℤ → ℤ → App → List App → Str × List App
start_spec pid time a list =
    if is_nonzero a.is_running then (a.name ++ text " have already been running.", list) else (
      text "Started " ++ a.name ++ text " with pid:" ++ show_int pid ++ text ".",
      replace a.name (begin pid time (pos 0) a) list,
    )

abbrev pub add_new : ℤ → ℤ → App → List App → Str × List App
add_new pid time a list = (
  text "Starting " ++ a.name ++ text " with pid:" ++ show_int pid ++ text ".",
  list ++ begin pid time (pos 0) a ∷ [],
)

abbrev pub add_unless : ℤ → ℤ → App → List App → Option ℕ → Str × List App
add_unless pid time a list (some i) =
    (text "Duplicated name : " ++ a.name ++ text ". Please rename the program.", list)
add_unless pid time a list none = add_new pid time a list

abbrev pub add_spec : ℤ → ℤ → App → List App → Str × List App
add_spec pid time a list = add_unless pid time a list (find_from 0 a.name list)
