-- ===== src/Server/Deletion.antt =====
-- `del_process_by_app_name` on a list that keeps the invariant.
use kb_pm.Prelude.{
  ℕ, zero, suc, ◌+◌, ◌≤◌, ◌<◌, ◌≡◌, refl, ap, subst, sym, ◌∙◌, Bool-cases, inl, inr, Option, none,
  some, List, [], ◌∷◌, arith, length, pos, pred_ℤ, done, All,
}
use kb_pm.CString.{Str, eq_str, eq_of_eq_str}
use kb_pm.Process.{Process, list_size}
use kb_pm.Process.Table.{
  count_named, get_process_list_count, index_from, last_index_from, shift_down, shift_from,
  del_process_by_app_name,
}
use kb_pm.Server.Spec.{app_of, App, entries, erase, IsAbsent, IsGood, IsNumbered, IsVacant}
use kb_pm.Server.Entries.{index_from-some}

length-eq_zero : (s : Str) → length s ≡ 0 → s ≡ []
length-eq_zero [] h = refl
length-eq_zero (c ∷ s) h = absurd (omega arith)

count_named-vacant :
    (rounds : ℕ) (slots : List Process) → All IsVacant slots → count_named rounds slots ≡ 0
unfolding count_named
count_named-vacant zero slots h = refl
count_named-vacant (suc rounds) [] h = refl
count_named-vacant (suc rounds) (p ∷ slots) h = rw h.0

-- The programs are counted again by their names.
pub count_named-eq :
    (i rounds n : ℕ) (slots : List Process)
    → n ≤ rounds
    → IsNumbered i n slots
    → IsGood (entries n slots)
    → count_named rounds slots ≡ n
unfolding count_named
count_named-eq i rounds zero slots h num good = count_named-vacant rounds slots num
count_named-eq i zero (suc n) slots h num good = absurd (omega arith)
count_named-eq i (suc rounds) (suc n) [] h num good = absurd num
count_named-eq i (suc rounds) (suc n) (p ∷ slots) h num good = ground (
  arith,
  count_named-eq (suc i) rounds n slots (omega arith) num.1 good.3,
  length-eq_zero p.app_name,
)

last_index_from-absent :
    (i : ℕ) (found : Option ℕ) (name : Str) (n : ℕ) (slots : List Process)
    → IsAbsent name (entries n slots)
    → last_index_from i found name n slots ≡ found
unfolding last_index_from
last_index_from-absent i found name zero slots h = refl
last_index_from-absent i found name (suc n) [] h = refl
last_index_from-absent i found name (suc n) (p ∷ slots) h =
    rw (h.0) (last_index_from-absent (i + 1) found name n slots h.1)

-- Names are distinct, so the last program of a name is the first.
pub last_index_from-eq :
    (i : ℕ) (name : Str) (n : ℕ) (slots : List Process)
    → IsGood (entries n slots)
    → last_index_from i none name n slots ≡ index_from i name n slots
unfolding last_index_from index_from
last_index_from-eq i name zero slots good = refl
last_index_from-eq i name (suc n) [] good = refl
last_index_from-eq i name (suc n) (p ∷ slots) good = elim (Bool-cases (eq_str p.app_name name)) [
  | inl same ↦ rw same (
      last_index_from-absent (i + 1) (some i) name n slots
        (rw (← eq_of_eq_str p.app_name name same) good.2))
  | inr other ↦ rw other (last_index_from-eq (i + 1) name n slots good.3)
]

erase-absent : (name : Str) (list : List App) → IsAbsent name list → erase name list ≡ list
erase-absent name [] h = refl
erase-absent name (a ∷ list) h = rw h.0 (ap (λ l. a ∷ l) (erase-absent name list h.1))

-- Moving `n` programs down by one slot, over the slot `x`, when a vacant slot follows them.
shift_down-lem :
    (i n : ℕ) (x : Process) (slots : List Process)
    → n < length slots
    → IsNumbered (suc i) n slots
    → (slots' : List Process) × (shift_down (suc n) (x ∷ slots) ≡ done slots')
      × IsNumbered i n slots'
      × (entries n slots' ≡ entries n slots)
      × (length slots' ≡ suc (length slots))
unfolding shift_down
shift_down-lem i n x [] h num = absurd (omega arith)
shift_down-lem i zero x (v ∷ slots) h num =
    let v' : Process = record v { id = pred_ℤ v.id } in
    (v' ∷ v' ∷ slots, refl, (num.0, (num.0, num.1)), refl, refl)
shift_down-lem i (suc n) x (q ∷ slots) h num =
    let q' : Process = record q { id = pred_ℤ q.id } in
    let (rest, e, num', same, len) = shift_down-lem (suc i) n q' slots (omega arith) num.1 in
    (q' ∷ rest, rw e refl, (rw num.0 (ground arith), num'), ap (λ l. app_of q ∷ l) same, ap suc len)

-- Deleting the program at position `j`.
shift_from-lem :
    (i k : ℕ) (name : Str) (j n : ℕ) (slots : List Process)
    → suc n < length slots
    → IsNumbered i (suc n) slots
    → IsGood (entries (suc n) slots)
    → index_from k name (suc n) slots ≡ some (k + j)
    → (slots' : List Process) × (shift_from j (suc n) slots ≡ done slots')
      × IsNumbered i n slots'
      × (entries n slots' ≡ erase name (entries (suc n) slots))
      × (length slots' ≡ length slots)
unfolding shift_from index_from
shift_from-lem i k name j n [] h num good found = absurd (omega arith)
shift_from-lem i k name zero n (p ∷ slots) h num good found =
    elim (Bool-cases (eq_str p.app_name name)) [
      | inl same ↦
          let (slots', e, num', kept, len) = shift_down-lem i n p slots (omega arith) num.1 in
          let absent =
            subst (λ m. IsAbsent m (entries n slots)) (eq_of_eq_str p.app_name name same) good.2 in
          (slots', e, num', rw same (kept ∙ sym (erase-absent name (entries n slots) absent)), len)
      | inr other ↦
          let later = index_from-some (k + 1) name n slots (k + 0) (ground arith) in
          absurd (omega (arith, later.2))
    ]
shift_from-lem i k name (suc j) zero (p ∷ slots) h num good found = ground arith
shift_from-lem i k name (suc j) (suc n) (p ∷ slots) h num good found =
    elim (Bool-cases (eq_str p.app_name name)) [
      | inl same ↦ absurd (ground arith)
      | inr other ↦
          let (slots', e, num', erased, len) =
            shift_from-lem (suc i) (k + 1) name j n slots (omega arith) num.1 good.3
              (ground arith) in
          (
            p ∷ slots',
            rw e refl,
            (num.0, num'),
            rw other (ap (λ l. app_of p ∷ l) erased),
            ap suc len,
          )
    ]

-- The number of programs is the number of slots in use.
pub get_process_list_count-eq :
    (n : ℕ) (slots : List Process)
    → n ≤ list_size
    → IsNumbered 0 n slots
    → IsGood (entries n slots)
    → get_process_list_count slots ≡ n
unfolding get_process_list_count
get_process_list_count-eq n slots h num good = count_named-eq 0 list_size n slots h num good

del_by_shift :
    (name : Str) (n : ℕ) (slots slots' : List Process) (j : ℕ)
    → get_process_list_count slots ≡ n
    → last_index_from 0 none name n slots ≡ some j
    → shift_from j n slots ≡ done slots'
    → del_process_by_app_name slots name ≡ done (pos 0, slots')
unfolding del_process_by_app_name
del_by_shift name n slots slots' j count last moved = ground arith

-- With a slot to spare, a program of the list is deleted: the status is 0, the programs that are
-- left are the others in their order, and they are numbered from 0 again.
pub del_process_by_app_name_lem :
    (name : Str) (n : ℕ) (slots : List Process) (j : ℕ)
    → length slots ≡ list_size
    → suc n < list_size
    → IsNumbered 0 (suc n) slots
    → IsGood (entries (suc n) slots)
    → index_from 0 name (suc n) slots ≡ some j
    → (slots' : List Process) × (del_process_by_app_name slots name ≡ done (pos 0, slots'))
      × IsNumbered 0 n slots'
      × (entries n slots' ≡ erase name (entries (suc n) slots))
      × (length slots' ≡ list_size)
del_process_by_app_name_lem name n slots j size room num good found =
    let count = get_process_list_count-eq (suc n) slots (omega arith) num good in
    let (slots', e, num', erased, len) =
      shift_from-lem 0 0 name j n slots (omega arith) num good (found ∙ ap some (omega arith)) in
    (
      slots',
      del_by_shift name (suc n) slots slots' j count
          (last_index_from-eq 0 name (suc n) slots good ∙ found) e,
      num',
      erased,
      len ∙ size,
    )
