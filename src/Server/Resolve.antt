-- ===== src/Server/Resolve.antt =====
-- Finding the program of a request: the id and the name lead to the same slot.
use kb_pm.Prelude.{
  ℕ, zero, suc, ◌+◌, ◌<◌, ◌≡◌, ◌∙◌, ap, sym, subst, Option-cases, inl, inr, ◌⊎◌, none, some, List,
  [], ◌∷◌, arith, false, length, get_elem?, done, >>=-eq-done,
}
use kb_pm.CString.{Str, eq_str, eq_str_refl, eq_str_comm}
use kb_pm.Process.{Process}
use kb_pm.Process.Table.{index_from}
use kb_pm.Process.Json.{parse_process}
use kb_pm.Machine.{Machine}
use kb_pm.Server.{Server}
use kb_pm.Server.Lookup.{
  RequestType, type_app_name, type_id, type_cmd, type_err, find_app, get_process_id, copy_slot,
  parse_request, parse_process_and_process_type,
}
use kb_pm.Server.Spec.{App, app_of, entries, apps, find_from, IsGood, IsAbsent, IsValid}
use kb_pm.Server.Entries.{index_from-entries, index_from-some, length-entries}
use kb_pm.Server.Contract.{target}

-- The name of one program does not lead to an earlier one.
absent_at :
    (name : Str) (n : ℕ) (slots : List Process) (j : ℕ) (p : Process)
    → IsAbsent name (entries n slots)
    → j < n
    → get_elem? slots j ≡ some p
    → eq_str p.app_name name ≡ false
absent_at name zero slots j p h lt at = absurd (omega arith)
absent_at name (suc n) [] j p h lt at = cc
absent_at name (suc n) (q ∷ slots) zero p h lt at = ground arith
absent_at name (suc n) (q ∷ slots) (suc j) p h lt at =
    absent_at name n slots j p h.1 (omega arith) at

pub index_from_self :
    (i n : ℕ) (slots : List Process) (j : ℕ) (p : Process)
    → IsGood (entries n slots)
    → j < n
    → get_elem? slots j ≡ some p
    → index_from i p.app_name n slots ≡ some (i + j)
unfolding index_from
index_from_self i zero slots j p good lt at = absurd (omega arith)
index_from_self i (suc n) [] j p good lt at = cc
index_from_self i (suc n) (q ∷ slots) zero p good lt at = ground (arith, eq_str_refl p.app_name)
index_from_self i (suc n) (q ∷ slots) (suc j) p good lt at = ground (
  arith,
  absent_at q.app_name n slots j p good.2 (omega arith) at,
  eq_str_comm p.app_name q.app_name,
  index_from_self (i + 1) n slots j p good.3 (omega arith) at,
)

pub get_process_id-lt :
    (count : ℕ) (buffer : Str) (id : ℕ) → get_process_id count buffer ≡ some id → id < count
unfolding get_process_id
get_process_id-lt count buffer id h = ground arith

pub get_elem?-entries :
    (n : ℕ) (slots : List Process) (j : ℕ) (p : Process)
    → j < n
    → get_elem? slots j ≡ some p
    → get_elem? (entries n slots) j ≡ some (app_of p)
get_elem?-entries zero slots j p lt at = absurd (omega arith)
get_elem?-entries (suc n) [] j p lt at = cc
get_elem?-entries (suc n) (q ∷ slots) zero p lt at = ground arith
get_elem?-entries (suc n) (q ∷ slots) (suc j) p lt at =
    get_elem?-entries n slots j p (omega arith) at

-- Where a program stands that a request has found.
pub record IsFound (s : Server) (buffer : Str) (p : Process) : Type 0 where
  pub index : ℕ
  pub below : index < s.process_count
  pub at : get_elem? s.slots index ≡ some p
  pub by_name : find_app s p.app_name ≡ some index
  pub meant : target buffer (apps s) ≡ some (app_of p)

-- What the search for the program of a request has come to.
abbrev pub Resolved : Machine → Server → Str → RequestType × Process → Type 0
Resolved m s buffer (type_id, p) = IsFound s buffer p
Resolved m s buffer (type_app_name, p) = IsFound s buffer p
Resolved m s buffer (type_cmd, p) =
    (target buffer (apps s) ≡ none) × (parse_request m s buffer ≡ done (type_cmd, p))
Resolved m s buffer (type_err, p) =
    (target buffer (apps s) ≡ none) × (parse_request m s buffer ≡ done (type_err, p))

target_by_id :
    (buffer : Str) (n id : ℕ) (list : List App) (a : App)
    → length list ≡ n
    → get_process_id n buffer ≡ some id
    → get_elem? list id ≡ some a
    → target buffer list ≡ some a
unfolding target
target_by_id buffer n id list a len found at = ground arith

target_by_name :
    (buffer : Str) (n i : ℕ) (list : List App) (a : App)
    → length list ≡ n
    → get_process_id n buffer ≡ none
    → find_from 0 buffer list ≡ some i
    → get_elem? list i ≡ some a
    → target buffer list ≡ some a
unfolding target
target_by_name buffer n i list a len missed found at = ground arith

target_missed :
    (buffer : Str) (n : ℕ) (list : List App)
    → length list ≡ n
    → get_process_id n buffer ≡ none
    → find_from 0 buffer list ≡ none
    → target buffer list ≡ none
unfolding target
target_missed buffer n list len missed unknown = ground arith

copy_slot-done :
    (s : Server) (i : ℕ) (t t' : RequestType) (p : Process)
    → copy_slot s i t ≡ done (t', p)
    → (t ≡ t') × (get_elem? s.slots i ≡ some p)
unfolding copy_slot
copy_slot-done s i t t' p h = elim (Option-cases (get_elem? s.slots i)) [
  | inl outside ↦ ground arith
  | inr (q, e) ↦ ground arith
]

parse_request-type :
    (m : Machine) (s : Server) (buffer : Str) (t : RequestType) (p : Process)
    → parse_request m s buffer ≡ done (t, p)
    → (t ≡ type_cmd) ⊎ (t ≡ type_err)
unfolding parse_request
parse_request-type m s buffer t p h =
    let (a, e, h') = >>=-eq-done (parse_process m.json m.fallthrough (m.stack s.log) buffer) _ h in
    ground arith

module _ (m : Machine) (s : Server) (buffer : Str) (valid : IsValid s) where
  length-apps : length (apps s) ≡ s.process_count
  length-apps = length-entries s.process_count s.slots (omega (arith, valid.counted, valid.sized))

  IsFound-at :
      (j : ℕ) (p : Process)
      → j < s.process_count
      → get_elem? s.slots j ≡ some p
      → target buffer (apps s) ≡ some (app_of p)
      → IsFound s buffer p
  IsFound-at j p lt at meant = record {
    index = j;
    below = lt;
    at = at;
    by_name =
        index_from_self 0 s.process_count s.slots j p valid.good lt at ∙ ap some (omega arith);
    meant = meant;
  }

  pub resolved_by_id :
      (id : ℕ) (p : Process)
      → get_process_id s.process_count buffer ≡ some id
      → get_elem? s.slots id ≡ some p
      → IsFound s buffer p
  resolved_by_id id p found at =
      let lt = get_process_id-lt s.process_count buffer id found in
      IsFound-at id p lt at (
        target_by_id buffer s.process_count id (apps s) (app_of p) length-apps found
          (get_elem?-entries s.process_count s.slots id p lt at))

  pub resolved_by_name :
      (i : ℕ) (p : Process)
      → get_process_id s.process_count buffer ≡ none
      → find_app s buffer ≡ some i
      → get_elem? s.slots i ≡ some p
      → IsFound s buffer p
  resolved_by_name i p missed found at =
      let (j, q, e, lt, at', named) = index_from-some 0 buffer s.process_count s.slots i found in
      let lt' : i < s.process_count = omega arith in
      IsFound-at i p lt' at (
        target_by_name buffer s.process_count i (apps s) (app_of p) length-apps missed
          (sym (index_from-entries 0 buffer s.process_count s.slots) ∙ found)
          (get_elem?-entries s.process_count s.slots i p lt' at))

  pub missed_target :
      get_process_id s.process_count buffer ≡ none
      → find_app s buffer ≡ none
      → target buffer (apps s) ≡ none
  missed_target missed unknown =
      target_missed buffer s.process_count (apps s) length-apps missed
        (sym (index_from-entries 0 buffer s.process_count s.slots) ∙ unknown)

  -- The search finds the program that the request means, by its id or its name; a request that
  -- means none is taken for a document.
  pub parse_process_and_process_type-Resolved :
      (t : RequestType) (p : Process)
      → parse_process_and_process_type m s buffer ≡ done (t, p)
      → Resolved m s buffer (t, p)
  unfolding parse_process_and_process_type
  parse_process_and_process_type-Resolved t p h =
      elim (Option-cases (get_process_id s.process_count buffer)) [
        | inr (id, found) ↦
            let (e, at) = copy_slot-done s id type_id t p (ground arith) in
            subst (λ t'. Resolved m s buffer (t', p)) e (resolved_by_id id p found at)
        | inl missed ↦ elim (Option-cases (find_app s buffer)) [
          | inr (i, found) ↦
              let (e, at) = copy_slot-done s i type_app_name t p (ground arith) in
              subst (λ t'. Resolved m s buffer (t', p)) e (resolved_by_name i p missed found at)
          | inl unknown ↦ as_document t p (missed_target missed unknown) (ground arith)
        ]
      ]
    where
      as_document :
          (t : RequestType) (p : Process)
          → target buffer (apps s) ≡ none
          → parse_request m s buffer ≡ done (t, p)
          → Resolved m s buffer (t, p)
      as_document type_cmd p none_meant e = (none_meant, e)
      as_document type_err p none_meant e = (none_meant, e)
      as_document type_id p none_meant e =
          absurd (ground (arith, parse_request-type m s buffer type_id p e))
      as_document type_app_name p none_meant e =
          absurd (ground (arith, parse_request-type m s buffer type_app_name p e))
