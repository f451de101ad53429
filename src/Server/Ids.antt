-- ===== src/Server/Ids.antt =====
-- The ids that the service shows, as they are asked for.
use kb_pm.Prelude.{
  ℕ, zero, suc, ◌+◌, ◌≡◌, ◌<◌, ◌≤◌, ◌∙◌, ap, some, List, [], ◌∷◌, arith, get_elem?, pos, done,
}
use kb_pm.CString.{show_nat, show_int}
use kb_pm.CString.Decimal.{atoi-show_nat}
use kb_pm.Utils.Digits.{is_number-show_nat}
use kb_pm.Process.{Process, list_size}
use kb_pm.Machine.{Machine}
use kb_pm.Server.{Server}
use kb_pm.Server.Lookup.{type_id, get_process_id, copy_slot, parse_process_and_process_type}
use kb_pm.Server.Spec.{IsNumbered, IsValid}

IsNumbered-at :
    (i n : ℕ) (slots : List Process) (j : ℕ) (p : Process)
    → IsNumbered i n slots
    → j < n
    → get_elem? slots j ≡ some p
    → p.id ≡ pos (i + j)
IsNumbered-at i zero slots j p num lt at = absurd (omega arith)
IsNumbered-at i (suc n) [] j p num lt at = absurd num
IsNumbered-at i (suc n) (q ∷ slots) zero p num lt at = ground arith
IsNumbered-at i (suc n) (q ∷ slots) (suc j) p num lt at =
    IsNumbered-at (suc i) n slots j p num.1 (omega arith) at ∙ ap pos (omega arith)

get_process_id-show_nat :
    (count id : ℕ) → id < count → count ≤ list_size → get_process_id count (show_nat id) ≡ some id
unfolding get_process_id
get_process_id-show_nat count id lt small =
    rw (is_number-show_nat id) (rw (atoi-show_nat id (omega (arith, lt, small))) (ground arith))

-- On a valid service, a request that is the id of a program of the list, as it is printed in the
-- status, finds that program, whatever the programs are called.
pub found_by_id :
    (m : Machine) (s : Server) (i : ℕ) (p : Process)
    → IsValid s
    → i < s.process_count
    → get_elem? s.slots i ≡ some p
    → parse_process_and_process_type m s (show_int p.id) ≡ done (type_id, p)
unfolding parse_process_and_process_type copy_slot show_int
found_by_id m s i p valid lt at =
    let numbered : p.id ≡ pos i =
      IsNumbered-at 0 s.process_count s.slots i p valid.numbered lt at ∙ ap pos (omega arith) in
    ap (λ id. parse_process_and_process_type m s (show_int id)) numbered
    ∙ rw (
      parse_process_and_process_type,
      get_process_id-show_nat s.process_count i lt valid.counted,
      copy_slot,
      at,
    )
