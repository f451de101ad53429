-- ===== src/Process/Json.antt =====
-- The part of src/process.c that writes process lists as documents and reads them back.
use kb_pm.Prelude.{
  ℕ, zero, suc, ◌+◌, Option, none, some, List, [], ◌∷◌, if◌then◌else◌, ℤ, pos, negsuc, eq_ℤ,
  is_nonzero, Outcome, done, undefined, Fault, ◌>>=◌, ◌++◌, ltb, length,
}
use kb_pm.CString.{Str, text, strcpy}
use kb_pm.System.{Log, Env}
use kb_pm.Proc.{str_buffer_size}
use kb_pm.Process.{Process, buffer_size}
use kb_pm.Process.Kill.{get_mem_by_pid}
use kb_pm.Process.Document.{CJson}

-- A returned status, with what the call has written through its pointers.
abbrev pub Reply : Type 0 → Type 0
Reply A = Outcome Log (ℤ × A)

-- `fallthrough` is what a caller finds as the value of `parse_process_cJSON` and
-- `parse_process_cJSON_with_status` when they run to their end, which has no `return`.
module _ (c : CJson) (fallthrough : Process → ℤ) where
  open c use {
    Json, parse, print, create_array, create_object, add_item_to_array, add_string_to_object,
    add_number_to_object, get_array_size, get_array_item, get_object_item, valuestring, valueint,
  }

  -- `strcpy(field, p_json_item->valuestring)`
  unfoldable pub copy_string : Json → Outcome Log Str
  copy_string item = elim (valuestring item) [
    | none ↦ undefined Fault.null_pointer
    | some s ↦ strcpy str_buffer_size s
  ]

  -- `p_json_item = cJSON_GetObjectItem(...); if(NULL == p_json_item) return -1;`
  unfoldable pub with_item : Process → Json → Str → (Json → Reply Process) → Reply Process
  with_item process p_json key next = elim (get_object_item p_json key) [
    | none ↦ done (negsuc 0, process)
    | some item ↦ next item
  ]

  unfoldable pub parse_process_cjson : Process → Json → Reply Process
  parse_process_cjson process p_json = with_item process p_json (text "app_name") λ item.
      copy_string item >>= λ app_name.
      let p1 : Process = record process { app_name = app_name } in
      with_item p1 p_json (text "cmd") λ item. copy_string item >>= λ cmd.
      let p2 : Process = record p1 { cmd = cmd } in
      with_item p2 p_json (text "dir") λ item. copy_string item >>= λ dir.
      let p3 : Process = record p2 { dir = dir } in
      with_item p3 p_json (text "is_running") λ item.
        let p4 : Process = record p3 { is_running = valueint item } in done (fallthrough p4, p4)

  unfoldable pub parse_process_cjson_with_status : Process → Json → Reply Process
  parse_process_cjson_with_status process p_json =
      with_item process p_json (text "app_name") λ item. copy_string item >>= λ app_name.
      let p1 : Process = record process { app_name = app_name } in
      with_item p1 p_json (text "id") λ item.
        let p2 : Process = record p1 { id = valueint item } in
        with_item p2 p_json (text "pid") λ item.
          let p3 : Process = record p2 { pid = valueint item } in
          with_item p3 p_json (text "is_running") λ item.
            let p4 : Process = record p3 { is_running = valueint item } in
            with_item p4 p_json (text "restart_times") λ item.
              let p5 : Process = record p4 { restart_times = valueint item } in
              with_item p5 p_json (text "start_time") λ item.
                let p6 : Process = record p5 { start_time = valueint item } in
                with_item p6 p_json (text "memory") λ item. copy_string item >>= λ memory.
                let p7 : Process = record p6 { memory = memory } in done (fallthrough p7, p7)

  unfoldable pub parse_process : Process → Str → Reply Process
  parse_process process json_str = elim (parse json_str) [
    | none ↦ done (negsuc 0, process)
    | some p_json ↦ parse_process_cjson process p_json
  ]

  -- The loop of both functions that read a list: `read` reads one process, `i` is the next item,
  -- `rounds` are left, and `slots` is the array from slot `i` on.
  unfoldable pub parse_items :
      (Process → Json → Reply Process) → Json → ℕ → ℕ → List Process → Reply (List Process)
  parse_items read p_json_array i zero slots = done (pos 0, slots)
  parse_items read p_json_array i (suc rounds) [] = undefined Fault.out_of_bounds
  parse_items read p_json_array i (suc rounds) (process ∷ slots) =
      let rest = parse_items read p_json_array (i + 1) rounds slots in
      elim (get_array_item p_json_array i) [
        | none ↦ undefined Fault.null_pointer
        | some p_json ↦ read process p_json >>= λ (res, process').
            if eq_ℤ res (negsuc 0)
            then done (negsuc 0, process' ∷ slots)
            else (rest >>= λ (res', slots'). done (res', process' ∷ slots'))
      ]

  -- -1, or the number of processes.
  unfoldable pub parse_list_by :
      (Process → Json → Reply Process) → List Process → Str → Reply (List Process)
  parse_list_by read slots json_str = elim (parse json_str) [
    | none ↦ done (negsuc 0, slots)
    | some p_json_array ↦
        parse_items read p_json_array 0 (get_array_size p_json_array) slots >>= λ (res, slots').
        done (if eq_ℤ res (negsuc 0) then negsuc 0 else pos (get_array_size p_json_array), slots')
  ]

  unfoldable pub parse_process_list : List Process → Str → Reply (List Process)
  parse_process_list = parse_list_by parse_process_cjson

  unfoldable pub parse_process_list_with_status : List Process → Str → Reply (List Process)
  parse_process_list_with_status = parse_list_by parse_process_cjson_with_status

  -- `none` is a file that cannot be read. At most BUFFER_SIZE bytes are read, and no zero is put
  -- behind them: `stale` is what the buffer goes on with, and if they fill it, what is read as a string
  -- goes on behind the array.
  unfoldable pub parse_process_list_from_path :
      Option Str → Str → List Process → Reply (List Process)
  parse_process_list_from_path none stale slots = done (negsuc 0, slots)
  parse_process_list_from_path (some []) stale slots = done (negsuc 0, slots)
  parse_process_list_from_path (some (b ∷ file)) stale slots =
      let res = parse_process_list slots ((b ∷ file) ++ stale) in
      if ltb (length (b ∷ file)) buffer_size then res else undefined Fault.out_of_bounds

module _ (c : CJson) where
  open c use {
    Json, print, create_array, create_object, add_item_to_array, add_string_to_object,
    add_number_to_object,
  }

  unfoldable pub create_process_cjson : Process → Json → Json
  create_process_cjson process p_json =
      add_number_to_object
        (add_string_to_object
          (add_string_to_object (add_string_to_object p_json (text "app_name") process.app_name)
            (text "cmd") process.cmd)
          (text "dir") process.dir)
        (text "is_running") process.is_running

  -- The memory of a running process is looked up, and kept in its slot.
  unfoldable pub create_process_cjson_with_status :
      Env → Process → Json → Log → Outcome Log (Json × Process × Log)
  create_process_cjson_with_status env process p_json log =
      let j1 = add_string_to_object p_json (text "app_name") process.app_name in
      let j2 = add_number_to_object j1 (text "id") process.id in
      let j3 = add_number_to_object j2 (text "pid") process.pid in
      let j4 = add_number_to_object j3 (text "restart_times") process.restart_times in
      let j5 = add_number_to_object j4 (text "start_time") process.start_time in
      let j6 = add_number_to_object j5 (text "is_running") process.is_running in
      let online = do
        (memory, log') ← get_mem_by_pid env process.pid log
        done (
          add_string_to_object j6 (text "memory") memory,
          record process { memory = memory },
          log',
        )
      in if is_nonzero process.is_running
        then online
        else done (add_string_to_object j6 (text "memory") (text "0 B"), process, log)

  -- The loop of `create_process_list_json_str` over the first `rounds` slots; `none` is a failed
  -- allocation.
  unfoldable pub create_items : ℕ → List Process → Json → Outcome Log (Option Json)
  create_items zero slots p_json_array = done (some p_json_array)
  create_items (suc rounds) [] p_json_array = undefined Fault.out_of_bounds
  create_items (suc rounds) (process ∷ slots) p_json_array = elim create_object [
    | none ↦ done none
    | some p_json ↦
        create_items rounds slots
          (add_item_to_array p_json_array (create_process_cjson process p_json))
  ]

  -- `str = cJSON_Print(...); if(NULL == str) return -1; strcpy(json_str, str); return 0;`; the
  -- destination holds `json_str` before.
  unfoldable pub print_into : Str → Json → Reply Str
  print_into json_str p_json = elim (print p_json) [
    | none ↦ done (negsuc 0, json_str)
    | some str ↦ strcpy buffer_size str >>= λ json_str'. done (pos 0, json_str')
  ]

  -- `if(NULL == p_json_array) return -1;`, and else the document is printed.
  abbrev pub print_if_made : Str → Option Json → Reply Str
  print_if_made json_str none = done (negsuc 0, json_str)
  print_if_made json_str (some p_json) = print_into json_str p_json

  unfoldable pub create_process_list_json_str : List Process → ℕ → Str → Reply Str
  create_process_list_json_str slots list_count json_str = elim create_array [
    | none ↦ done (negsuc 0, json_str)
    | some p_json_array ↦ create_items list_count slots p_json_array >>= print_if_made json_str
  ]

  unfoldable pub create_process_json_str : Process → Str → Reply Str
  create_process_json_str process json_str = elim create_object [
    | none ↦ done (negsuc 0, json_str)
    | some p_json ↦ print_into json_str (create_process_cjson process p_json)
  ]

  -- The loop of `create_process_list_json_str_with_status`: the slots come back, with the memory
  -- that was looked up.
  unfoldable pub create_items_with_status :
      Env → ℕ → List Process → Json → Log → Outcome Log (Option Json × List Process × Log)
  create_items_with_status env zero slots p_json_array log = done (some p_json_array, slots, log)
  create_items_with_status env (suc rounds) [] p_json_array log = undefined Fault.out_of_bounds
  create_items_with_status env (suc rounds) (process ∷ slots) p_json_array log =
      elim create_object [
        | none ↦ done (none, process ∷ slots, log)
        | some p_json ↦ do
          (p_json', process', log') ← create_process_cjson_with_status env process p_json log
          (array', slots', log'') ←
              create_items_with_status env rounds slots (add_item_to_array p_json_array p_json')
                log'
          done (array', process' ∷ slots', log'')
      ]

  unfoldable pub create_process_list_json_str_with_status :
      Env → List Process → ℕ → Str → Log → Reply (Str × List Process × Log)
  create_process_list_json_str_with_status env slots list_count json_str log = elim create_array [
    | none ↦ done (negsuc 0, (json_str, slots, log))
    | some p_json_array ↦ do
      (array', slots', log') ← create_items_with_status env list_count slots p_json_array log
      (res, json_str') ← print_if_made json_str array'
      done (res, (json_str', slots', log'))
  ]
