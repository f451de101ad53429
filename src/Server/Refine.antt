-- ===== src/Server/Refine.antt =====
-- The requests meet their contract: steps that the requests share.
pub mod Stop
pub mod Restart
pub mod Start
pub mod Remove
use kb_pm.Prelude.{
  ℕ, ℤ, ◌≡◌, refl, sym, ap, ◌∙◌, subst, ◌⊎◌, inl, inr, Option-cases, none, some, arith, done,
  Outcome, ◌>>=◌, >>=-eq-done, get_elem?,
}
use kb_pm.CString.{Str}
use kb_pm.System.{Log, Env}
use kb_pm.Process.{Process}
use kb_pm.Machine.{Machine}
use kb_pm.Server.{Server}
use kb_pm.Server.Lookup.{
  RequestType, type_app_name, type_id, type_cmd, type_err, find_app, parse_process_and_process_type,
  get_pos_in_process_list, get_error_response,
}
use kb_pm.Server.Requests.{Response, on_listed, on_slot, on_position}
use kb_pm.Server.Spec.{App, app_of, apps, replace, IsSettled, IsValid}
use kb_pm.Server.Contract.{target, begin}
use kb_pm.Server.Resolve.{IsFound, Resolved, parse_process_and_process_type-Resolved}
use kb_pm.Server.Effects.{IsSame, IsStarted, time_after_fork}
use kb_pm.Server.Invariant.{written, on_slot-done, written-IsValid}

-- A request about a program of the list: either it means none, or `f` is run on the one that it means.
abbrev pub Listed : (Process → Server → Response) → Str → Server → Str → Server → Type 0
Listed f buffer s r s' =
    ((target buffer (apps s) ≡ none) × (r ≡ get_error_response buffer) × (s' ≡ s))
    ⊎ ((p : Process) × IsFound s buffer p × (f p s ≡ done (r, s')))

pub on_listed-done :
    (f : Process → Server → Response) (m : Machine) (buffer : Str) (s : Server) (r : Str)
    (s' : Server)
    → IsValid s
    → on_listed f m buffer s ≡ done (r, s')
    → Listed f buffer s r s'
unfolding on_listed
on_listed-done f m buffer s r s' valid h =
    let (a, e, h') = >>=-eq-done (parse_process_and_process_type m s buffer) _ h in
    by_type a.0 a.1 (parse_process_and_process_type-Resolved m s buffer valid a.0 a.1 e) h'
  where
    by_type :
        (t : RequestType) (p : Process)
        → Resolved m s buffer (t, p)
        → elim t as (λ _. Response) [
          | type_cmd ↦ done (get_error_response buffer, s)
          | type_id ↦ f p s
          | type_app_name ↦ f p s
          | type_err ↦ done (get_error_response buffer, s)
        ]
          ≡ done (r, s')
        → Listed f buffer s r s'
    by_type type_cmd p res e = inl (res.0, ground arith, ground arith)
    by_type type_err p res e = inl (res.0, ground arith, ground arith)
    by_type type_id p res e = inr (p, res, e)
    by_type type_app_name p res e = inr (p, res, e)

pub get_pos-found :
    (s : Server) (buffer : Str) (p : Process)
    → (found : IsFound s buffer p) → get_pos_in_process_list s p ≡ done found.index
unfolding get_pos_in_process_list
get_pos-found s buffer p found = rw (get_pos_in_process_list, found.by_name)

-- The slot of the program that a request means is given a new record.
pub record IsWritten (s : Server) (p q : Process) (s' : Server) : Type 0 where
  pub valid : IsSame p q → IsSettled (app_of q) → IsValid s'
  pub swapped : IsSame p q → IsSettled (app_of q) → apps s' ≡ replace p.app_name (app_of q) (apps s)

pub on_slot-found :
    (f : Process → Log → Outcome Log (Process × Log)) (s : Server) (buffer : Str) (p q : Process)
    (s' : Server)
    → IsValid s
    → (found : IsFound s buffer p) → on_slot f found.index s ≡ done (q, s')
    → (log' : Log) × (f p s.log ≡ done (q, log')) × IsWritten s p q s'
on_slot-found f s buffer p q s' valid found h =
    let (p', log', at, called, e) = on_slot-done f found.index s q s' h in
    let same : p' ≡ p = ground arith in
    let lemma = λ (k : IsSame p q) (settled : IsSettled (app_of q)).
      written-IsValid s found.index p q log' valid found.below found.at found.by_name k settled in
    (
      log',
      subst (λ x. f x s.log ≡ done (q, log')) same called,
      record {
        valid = λ k settled. subst IsValid (sym e) (lemma k settled).0;
        swapped = λ k settled.
            subst (λ x. apps x ≡ replace p.app_name (app_of q) (apps s)) (sym e)
              (lemma k settled).1;
      },
    )

-- The requests look up the position, run `f` on the slot and compose their response.
pub on_found-done :
    (f : Process → Log → Outcome Log (Process × Log)) (say : Process → Str) (s : Server)
    (buffer : Str) (p : Process) (r : Str) (s' : Server)
    → IsValid s
    → IsFound s buffer p
    → on_position f say p s ≡ done (r, s')
    → (q : Process) × (log' : Log) × (f p s.log ≡ done (q, log')) × (r ≡ say q) × IsWritten s p q s'
on_found-done f say s buffer p r s' valid found h =
    let (i, e, h1) = >>=-eq-done (get_pos_in_process_list s p) _ h in
    let (a, e', h2) = >>=-eq-done (on_slot f i s) _ h1 in
    let index_eq : i ≡ found.index = ground (arith, get_pos-found s buffer p found) in
    let (log', called, w) =
      on_slot-found f s buffer p a.0 a.1 valid found
        (subst (λ k. on_slot f k s ≡ done a) index_eq e') in
    let ended : a.1 ≡ s' = ground arith in
    (a.0, log', called, ground arith, subst (λ x. IsWritten s p a.0 x) ended w)
