-- ===== src/Server/Entries.antt =====
-- How the operations on the array act on the programs that it holds.
use kb_pm.Prelude.{
  ◌≢◌, ◌∙◌, subst, ℕ, zero, suc, ◌+◌, ◌≤◌, ◌<◌, ◌≡◌, refl, ap, false, Bool-cases, inl, inr, none,
  some, List, [], ◌∷◌, ◌++◌, arith, length, get_elem?, set,
}
use kb_pm.CString.{Str, eq_str, eq_str_refl, eq_str_comm, eq_of_eq_str}
use kb_pm.Process.{Process}
use kb_pm.Process.Table.{index_from}
use kb_pm.Server.Spec.{App, app_of, entries, find_from, replace, erase, IsAbsent, IsGood, IsSettled}

-- The search in the array is the search among the programs.
pub index_from-entries :
    (i : ℕ) (name : Str) (n : ℕ) (slots : List Process)
    → index_from i name n slots ≡ find_from i name (entries n slots)
unfolding index_from
index_from-entries i name zero slots = refl
index_from-entries i name (suc n) [] = refl
index_from-entries i name (suc n) (p ∷ slots) = rw (index_from-entries (i + 1) name n slots)

-- What is found by name at an index is the program there.
pub index_from-some :
    (i : ℕ) (name : Str) (n : ℕ) (slots : List Process) (k : ℕ)
    → index_from i name n slots ≡ some k
    → (j : ℕ) × (p : Process) × (k ≡ i + j)
      × (j < n)
      × (get_elem? slots j ≡ some p)
      × (p.app_name ≡ name)
unfolding index_from
index_from-some i name zero slots k h = cc
index_from-some i name (suc n) [] k h = cc
index_from-some i name (suc n) (p ∷ slots) k h = elim (Bool-cases (eq_str p.app_name name)) [
  | inl same ↦ (0, p, ground arith, omega arith, refl, eq_of_eq_str p.app_name name same)
  | inr other ↦
      let (j, q, e, lt, at, named) = index_from-some (i + 1) name n slots k (ground arith) in
      (suc j, q, omega arith, omega arith, at, named)
]

pub find_from-none :
    (i : ℕ) (name : Str) (list : List App) → find_from i name list ≡ none → IsAbsent name list
find_from-none i name [] h = tt
find_from-none i name (a ∷ list) h = ground (arith, find_from-none (i + 1) name list)

pub find_from-absent :
    (i : ℕ) (name : Str) (list : List App) → IsAbsent name list → find_from i name list ≡ none
find_from-absent i name [] h = refl
find_from-absent i name (a ∷ list) h = ground (arith, find_from-absent (i + 1) name list)

pub length-entries :
    (n : ℕ) (slots : List Process) → n ≤ length slots → length (entries n slots) ≡ n
length-entries zero slots h = refl
length-entries (suc n) [] h = absurd (omega arith)
length-entries (suc n) (p ∷ slots) h = ap suc (length-entries n slots (omega arith))

-- A write to the slot of the first program of a name replaces that program.
pub entries-set :
    (i : ℕ) (name : Str) (n : ℕ) (slots : List Process) (j : ℕ) (q : Process)
    → index_from i name n slots ≡ some (i + j)
    → entries n (set slots j q) ≡ replace name (app_of q) (entries n slots)
unfolding index_from
entries-set i name zero slots j q h = cc
entries-set i name (suc n) [] j q h = cc
entries-set i name (suc n) (p ∷ slots) zero q h = elim (Bool-cases (eq_str p.app_name name)) [
  | inl same ↦ rw same
  | inr other ↦
      let later = index_from-some (i + 1) name n slots (i + 0) (ground arith) in
      absurd (omega (arith, later.2))
]
entries-set i name (suc n) (p ∷ slots) (suc j) q h = elim (Bool-cases (eq_str p.app_name name)) [
  | inl same ↦ ground arith
  | inr other ↦
      rw other (ap (λ l. app_of p ∷ l) (entries-set (i + 1) name n slots j q (ground arith)))
]

-- A write to the slot behind the last program appends one.
pub entries-set_end :
    (n : ℕ) (slots : List Process) (q : Process)
    → n < length slots
    → entries (suc n) (set slots n q) ≡ entries n slots ++ app_of q ∷ []
entries-set_end n [] q h = absurd (omega arith)
entries-set_end zero (p ∷ slots) q h = refl
entries-set_end (suc n) (p ∷ slots) q h = rw (entries-set_end n slots q (omega arith))

pub replace-IsAbsent :
    (name other : Str) (b : App) (list : List App)
    → b.name ≡ name
    → IsAbsent other list
    → IsAbsent other (replace name b list)
replace-IsAbsent name other b [] e h = tt
replace-IsAbsent name other b (a ∷ list) e h =
    ground (arith, eq_of_eq_str a.name name, replace-IsAbsent name other b list)

pub replace-IsGood :
    (name : Str) (b : App) (list : List App)
    → b.name ≡ name
    → IsSettled b
    → IsGood list
    → IsGood (replace name b list)
replace-IsGood name b [] e settled h = tt
replace-IsGood name b (a ∷ list) e settled h = ground (
  arith,
  eq_of_eq_str a.name name,
  replace-IsAbsent name a.name b list,
  replace-IsGood name b list,
)

pub append-IsAbsent :
    (name : Str) (b : App) (list : List App)
    → IsAbsent name list
    → eq_str b.name name ≡ false
    → IsAbsent name (list ++ b ∷ [])
append-IsAbsent name b [] h e = (e, tt)
append-IsAbsent name b (a ∷ list) h e = (h.0, append-IsAbsent name b list h.1 e)

pub erase-IsAbsent :
    (name other : Str) (list : List App) → IsAbsent other list → IsAbsent other (erase name list)
erase-IsAbsent name other [] h = tt
erase-IsAbsent name other (a ∷ list) h = ground (arith, erase-IsAbsent name other list)

pub erase-IsGood : (name : Str) (list : List App) → IsGood list → IsGood (erase name list)
erase-IsGood name [] h = tt
erase-IsGood name (a ∷ list) h =
    ground (arith, erase-IsGood name list, erase-IsAbsent name a.name list)

pub append-IsGood :
    (b : App) (list : List App)
    → b.name ≢ []
    → IsSettled b
    → IsAbsent b.name list
    → IsGood list
    → IsGood (list ++ b ∷ [])
append-IsGood b [] named settled absent good = (named, settled, tt, tt)
append-IsGood b (a ∷ list) named settled absent good = (
  good.0,
  good.1,
  append-IsAbsent a.name b list good.2 (eq_str_comm b.name a.name ∙ absent.0),
  append-IsGood b list named settled absent.1 good.3,
)

pub erase-replace :
    (name : Str) (b : App) (list : List App)
    → b.name ≡ name
    → IsGood list
    → erase name (replace name b list) ≡ erase name list
erase-replace name b [] e good = refl
erase-replace name b (a ∷ list) e good =
    ground (arith, eq_str_refl b.name, erase-replace name b list e)

pub IsSettled-at :
    (n : ℕ) (slots : List Process) (j : ℕ) (p : Process)
    → IsGood (entries n slots)
    → j < n
    → get_elem? slots j ≡ some p
    → IsSettled (app_of p)
IsSettled-at zero slots j p good lt at = absurd (omega arith)
IsSettled-at (suc n) [] j p good lt at = cc
IsSettled-at (suc n) (q ∷ slots) zero p good lt at =
    let same : q ≡ p = ground arith in subst (λ x. IsSettled (app_of x)) same good.1
IsSettled-at (suc n) (q ∷ slots) (suc j) p good lt at =
    IsSettled-at n slots j p good.3 (omega arith) at
