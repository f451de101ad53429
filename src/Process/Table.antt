-- ===== src/Process/Table.antt =====
-- The part of src/process.c that works on the array of processes. An array is the list of its
-- slots, and a loop over the array walks the list with the number of rounds left.
use kb_pm.Prelude.{
  ℕ, zero, suc, ◌+◌, Option, none, some, List, [], ◌∷◌, ◌==◌, if◌then◌else◌, length, ℤ, pos, negsuc,
  pred_ℤ, Outcome, done, undefined, Fault, ◌>>=◌,
}
use kb_pm.CString.{Str, eq_str}
use kb_pm.System.{Log}
use kb_pm.Process.{Process, list_size}

-- The first slot with an empty name ends the list.
unfoldable pub count_named : ℕ → List Process → ℕ
count_named zero slots = 0
count_named (suc rounds) [] = 0
count_named (suc rounds) (p ∷ slots) =
    let rest = count_named rounds slots in if length p.app_name == 0 then 0 else suc rest

unfoldable pub get_process_list_count : List Process → ℕ
get_process_list_count slots = count_named list_size slots

-- The first of `rounds` slots that bears the name, counted from `i`.
unfoldable pub index_from : ℕ → Str → ℕ → List Process → Option ℕ
index_from i name zero slots = none
index_from i name (suc rounds) [] = none
index_from i name (suc rounds) (p ∷ slots) =
    let rest = index_from (i + 1) name rounds slots in
    if eq_str p.app_name name then some i else rest

-- The last of `rounds` slots that bears the name: `found` is the latest so far.
unfoldable pub last_index_from : ℕ → Option ℕ → Str → ℕ → List Process → Option ℕ
last_index_from i found name zero slots = found
last_index_from i found name (suc rounds) [] = found
last_index_from i found name (suc rounds) (p ∷ slots) =
    last_index_from (i + 1) (if eq_str p.app_name name then some i else found) name rounds slots

-- `process_list[i + 1].id--; process_list[i] = process_list[i + 1];`, for `rounds` slots from the
-- first of the list on.
unfoldable pub shift_down : ℕ → List Process → Outcome Log (List Process)
shift_down zero slots = done slots
shift_down (suc rounds) [] = undefined Fault.out_of_bounds
shift_down (suc rounds) (p ∷ []) = undefined Fault.out_of_bounds
shift_down (suc rounds) (p ∷ q ∷ slots) = do
  let q' : Process = record q { id = pred_ℤ q.id }
  slots' ← shift_down rounds (q' ∷ slots)
  done (q' ∷ slots')

-- The loop from `index` to `count`: the slots before `index` stay.
unfoldable pub shift_from : ℕ → ℕ → List Process → Outcome Log (List Process)
shift_from zero count slots = shift_down count slots
shift_from (suc index) zero slots = done slots
shift_from (suc index) (suc count) [] = undefined Fault.out_of_bounds
shift_from (suc index) (suc count) (p ∷ slots) = do
  slots' ← shift_from index count slots
  done (p ∷ slots')

unfoldable pub del_process_by_app_name : List Process → Str → Outcome Log (ℤ × List Process)
del_process_by_app_name slots app_name =
    let count = get_process_list_count slots in
    elim (last_index_from 0 none app_name count slots) [
      | none ↦ done (negsuc 0, slots)
      | some index ↦ shift_from index count slots >>= λ slots'. done (pos 0, slots')
    ]
