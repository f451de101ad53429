-- ===== src/Server/Invariant.antt =====
-- Operations on one program of the list keep the invariant, and replace that program in the list.
use kb_pm.Prelude.{
  ℕ, suc, ◌+◌, ◌<◌, ◌≡◌, ◌≢◌, ◌∙◌, ap, sym, subst, Option-cases, inl, inr, none, some, [], ◌∷◌,
  ◌++◌, arith, length, length-set, get_elem?, set, pos, done, Outcome, >>=-eq-done,
}
use kb_pm.System.{Log}
use kb_pm.Process.{Process}
use kb_pm.Server.{Server}
use kb_pm.Server.Lookup.{find_app}
use kb_pm.Server.Requests.{on_slot, append_slot}
use kb_pm.Server.Spec.{app_of, entries, apps, replace, IsGood, IsSettled, IsNumbered, IsValid}
use kb_pm.Server.Entries.{
  entries-set, entries-set_end, replace-IsGood, append-IsGood, find_from-none, index_from-entries,
}
use kb_pm.Server.Slots.{IsNumbered-set, IsNumbered-append}
use kb_pm.Server.Effects.{IsSame}

-- The service with another record in one slot.
abbrev pub written : Server → ℕ → Process → Log → Server
written s i q log' = record s { slots = set s.slots i q; log = log' }

pub on_slot-done :
    (f : Process → Log → Outcome Log (Process × Log)) (i : ℕ) (s : Server) (q : Process)
    (s' : Server)
    → on_slot f i s ≡ done (q, s')
    → (p : Process) × (log' : Log) × (get_elem? s.slots i ≡ some p)
      × (f p s.log ≡ done (q, log'))
      × (s' ≡ written s i q log')
unfolding on_slot
on_slot-done f i s q s' h = elim (Option-cases (get_elem? s.slots i)) [
  | inl outside ↦ absurd (ground arith)
  | inr (p, e) ↦
      let next : Process × Log → Outcome Log (Process × Server) =
        λ a. done (a.0, written s i a.0 a.1) in
      let (a, called, returned) = >>=-eq-done (f p s.log) next {b = (q, s')} (ground arith) in
      (p, a.1, e, ground arith, ground arith)
]

-- A program of the list gets a new record of the same name and id.
pub written-IsValid :
    (s : Server) (i : ℕ) (p q : Process) (log' : Log)
    → IsValid s
    → i < s.process_count
    → get_elem? s.slots i ≡ some p
    → find_app s p.app_name ≡ some i
    → IsSame p q
    → IsSettled (app_of q)
    → IsValid (written s i q log')
      × (apps (written s i q log') ≡ replace p.app_name (app_of q) (apps s))
written-IsValid s i p q log' valid lt at found same settled = (
  record {
    sized = length-set s.slots i q ∙ valid.sized;
    counted = valid.counted;
    numbered = IsNumbered-set 0 s.process_count s.slots i p q lt at same.id valid.numbered;
    good =
        subst IsGood (sym swapped)
          (replace-IsGood p.app_name (app_of q) (apps s) same.name settled valid.good);
  },
  swapped,
)
  where
    swapped : entries s.process_count (set s.slots i q) ≡ replace p.app_name (app_of q) (apps s)
    swapped = entries-set 0 p.app_name s.process_count s.slots i q (found ∙ ap some (omega arith))

abbrev pub appended : Process → Server → Server
appended p s = record s {
  slots = set s.slots s.process_count p;
  process_count = s.process_count + 1;
}

append_slot-done :
    (p : Process) (s s' : Server)
    → append_slot p s ≡ done s'
    → (s.process_count < length s.slots) × (appended p s ≡ s')
unfolding append_slot
append_slot-done p s s' h = (ground arith, ground arith)

appended-IsValid :
    (p : Process) (s : Server)
    → IsValid s
    → s.process_count < length s.slots
    → p.app_name ≢ []
    → IsSettled (app_of p)
    → p.id ≡ pos s.process_count
    → find_app s p.app_name ≡ none
    → IsValid (appended p s) × (apps (appended p s) ≡ apps s ++ app_of p ∷ [])
appended-IsValid p s valid lt named settled id new = (
  record {
    sized = length-set s.slots s.process_count p ∙ valid.sized;
    counted = omega (arith, valid.sized, lt);
    numbered =
        subst (λ k. IsNumbered 0 k (set s.slots s.process_count p)) next
          (IsNumbered-append 0 s.process_count s.slots p lt (id ∙ ap pos (omega arith))
            valid.numbered);
    good = subst IsGood (sym grown) (
        append-IsGood (app_of p) (apps s) named settled
          (find_from-none 0 p.app_name (apps s)
            (sym (index_from-entries 0 p.app_name s.process_count s.slots) ∙ new))
          valid.good);
  },
  grown,
)
  where
    next : suc s.process_count ≡ s.process_count + 1
    next = omega arith

    grown : apps (appended p s) ≡ apps s ++ app_of p ∷ []
    grown =
        subst (λ k. entries k (set s.slots s.process_count p) ≡ apps s ++ app_of p ∷ []) next
          (entries-set_end s.process_count s.slots p lt)

-- A new program behind the others.
pub append_slot-IsValid :
    (p : Process) (s s' : Server)
    → IsValid s
    → p.app_name ≢ []
    → IsSettled (app_of p)
    → p.id ≡ pos s.process_count
    → find_app s p.app_name ≡ none
    → append_slot p s ≡ done s'
    → IsValid s' × (apps s' ≡ apps s ++ app_of p ∷ [])
append_slot-IsValid p s s' valid named settled id new h =
    let (lt, e) = append_slot-done p s s' h in
    subst (λ x. IsValid x × (apps x ≡ apps s ++ app_of p ∷ [])) e
      (appended-IsValid p s valid lt named settled id new)
