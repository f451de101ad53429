-- ===== src/Server/Refine/Remove.antt =====
-- `kbpm remove`
use kb_pm.Prelude.{
  ℕ, ℤ, suc, ◌+◌, ◌-◌, ◌<◌, ◌≡◌, ◌∙◌, ap, sym, subst, List, inl, inr, Bool-cases, some, arith, done,
  >>=-eq-done, is_nonzero, length, get_elem?, set, get_elem?-set_self,
}
use kb_pm.CString.{Str}
use kb_pm.System.{Log, Env}
use kb_pm.Process.{Process, list_size}
use kb_pm.Process.Table.{del_process_by_app_name}
use kb_pm.Machine.{Machine}
use kb_pm.Server.{Server}
use kb_pm.Server.Lookup.{find_app, get_pos_in_process_list}
use kb_pm.Server.Control.{server_stop_process}
use kb_pm.Server.Requests.{
  on_slot, remove_listed, server_remove_process, server_remove_process_and_get_response,
}
use kb_pm.Server.Spec.{app_of, entries, apps, erase, IsGood, IsSettled, IsNumbered, IsValid}
use kb_pm.Server.Entries.{erase-replace, erase-IsGood, IsSettled-at}
use kb_pm.Server.Deletion.{del_process_by_app_name_lem}
use kb_pm.Server.Contract.{remove_spec}
use kb_pm.Server.Resolve.{IsFound, index_from_self}
use kb_pm.Server.Effects.{IsSame, server_stop_process-done, server_stop_process-idle}
use kb_pm.Server.Invariant.{written, written-IsValid, on_slot-done}
use kb_pm.Server.Refine.{on_listed-done, get_pos-found}

-- Stopping keeps the program in its place, whether it ran or not.
pub stopped_or_idle :
    (env : Env) (p : Process) (log : Log) (q : Process) (log' : Log)
    → IsSettled (app_of p)
    → server_stop_process env p log ≡ done (q, log')
    → IsSame p q × IsSettled (app_of q)
stopped_or_idle env p log q log' settled h = elim (Bool-cases (is_nonzero p.is_running)) [
  | inl on ↦
      let stopped = server_stop_process-done env p log q log' on h in
      (stopped.same, inl (stopped.running, stopped.pid))
  | inr off ↦
      let same : p ≡ q = ground (arith, server_stop_process-idle env p log off) in
      (ground arith, subst (λ x. IsSettled (app_of x)) same settled)
]

abbrev Deleted : ℕ → Str → List Process → List Process → Type 0
Deleted n name slots slots' =
    (length slots' ≡ list_size)
    × IsNumbered 0 n slots'
    × (entries n slots' ≡ erase name (entries (suc n) slots))

Deleted-at :
    (n : ℕ) (slots : List Process) (i : ℕ) (p : Process) (slots' : List Process) (res : ℤ)
    → length slots ≡ list_size
    → suc n < list_size
    → IsNumbered 0 (suc n) slots
    → IsGood (entries (suc n) slots)
    → i < suc n
    → get_elem? slots i ≡ some p
    → del_process_by_app_name slots p.app_name ≡ done (res, slots')
    → Deleted n p.app_name slots slots'
Deleted-at n slots i p slots' res size room num good lt at h =
    let found = index_from_self 0 (suc n) slots i p good lt at in
    let (left, e, num', erased, len) =
      del_process_by_app_name_lem p.app_name n slots (0 + i) size room num good found in
    let same : left ≡ slots' = ground arith in
    subst (Deleted n p.app_name slots) same (len, num', erased)

-- Deleting the program at `i` of a valid service with a slot to spare.
deleted-IsValid :
    (s : Server) (i : ℕ) (p : Process) (slots' : List Process) (res : ℤ)
    → IsValid s
    → s.process_count < list_size
    → i < s.process_count
    → get_elem? s.slots i ≡ some p
    → del_process_by_app_name s.slots p.app_name ≡ done (res, slots')
    → IsValid (record s { slots = slots'; process_count = s.process_count - 1 })
      × (entries (s.process_count - 1) slots' ≡ erase p.app_name (apps s))
deleted-IsValid s i p slots' res valid room lt at h =
    let (len, num, erased) =
      Deleted-at (s.process_count - 1) s.slots i p slots' res valid.sized (omega arith)
        (subst (λ k. IsNumbered 0 k s.slots) next valid.numbered)
        (subst (λ k. IsGood (entries k s.slots)) next valid.good) (omega arith) at h in
    let erased' =
      subst (λ k. entries (s.process_count - 1) slots' ≡ erase p.app_name (entries k s.slots))
        (sym next) erased in
    (
      record {
        sized = len;
        counted = omega (arith, valid.counted);
        numbered = num;
        good = subst IsGood (sym erased') (erase-IsGood p.app_name (apps s) valid.good);
      },
      erased',
    )
  where
    next : s.process_count ≡ suc (s.process_count - 1)
    next = omega arith

module _ (m : Machine) (i : ℕ) (s : Server) (p : Process) (valid : IsValid s)
    (room : s.process_count < list_size) (lt : i < s.process_count)
    (at : get_elem? s.slots i ≡ some p) (found : find_app s p.app_name ≡ some i) where
  -- The slot holds `q`, which is the program after it was stopped.
  erased_from_written :
      (q : Process) (log' : Log) (slots' : List Process) (res : ℤ)
      → IsSame p q
      → IsSettled (app_of q)
      → del_process_by_app_name (set s.slots i q) q.app_name ≡ done (res, slots')
      → IsValid (record s { slots = slots'; process_count = s.process_count - 1; log = log' })
        × (entries (s.process_count - 1) slots' ≡ erase p.app_name (apps s))
  erased_from_written q log' slots' res same settled h =
      let (wv, swapped) = written-IsValid s i p q log' valid lt at found same settled in
      let inside : i < length s.slots = omega (arith, valid.sized, valid.counted) in
      let (v, erased) =
        deleted-IsValid (written s i q log') i q slots' res wv room lt
          (get_elem?-set_self s.slots i q inside) h in
      (
        v,
        erased
            ∙ ap (λ k. erase k (apps (written s i q log'))) same.name
            ∙ ap (erase p.app_name) swapped
            ∙ erase-replace p.app_name (app_of q) (apps s) same.name valid.good,
      )

  removed_from :
      (q : Process) (mid : Server) (res : ℤ) (slots' : List Process) (name : Str) (s' : Server)
      → ((p' : Process) × (log' : Log) × (get_elem? s.slots i ≡ some p')
          × (server_stop_process m.env p' s.log ≡ done (q, log'))
          × (mid ≡ written s i q log'))
      → del_process_by_app_name mid.slots q.app_name ≡ done (res, slots')
      → q.app_name ≡ name
      → record mid { slots = slots'; process_count = mid.process_count - 1 } ≡ s'
      → (name ≡ p.app_name) × IsValid s' × (apps s' ≡ erase p.app_name (apps s))
  removed_from q mid res slots' name s' (p', log', at', called, w) h named ended =
      let h' = subst (λ x. del_process_by_app_name x.slots q.app_name ≡ done (res, slots')) w h in
      let one : p' ≡ p = ground arith in
      let called' = subst (λ x. server_stop_process m.env x s.log ≡ done (q, log')) one called in
      let settled = IsSettled-at s.process_count s.slots i p valid.good lt at in
      let (same, settled') = stopped_or_idle m.env p s.log q log' settled called' in
      let (v, erased) = erased_from_written q log' slots' res same settled' h' in
      let ended' =
        ap (λ (x : Server). record x { slots = slots'; process_count = x.process_count - 1 })
          (sym w)
        ∙ ended in
      (
        sym named ∙ same.name,
        subst IsValid ended' v,
        subst (λ x. apps x ≡ erase p.app_name (apps s)) ended' erased,
      )

  -- `server_remove_process` takes the program out, and answers its name.
  server_remove_process-done :
      (name : Str) (s' : Server)
      → server_remove_process m i s ≡ done (name, s')
      → (name ≡ p.app_name) × IsValid s' × (apps s' ≡ erase p.app_name (apps s))
  unfolding server_remove_process
  server_remove_process-done name s' h =
      let (a, e, h1) = >>=-eq-done (on_slot (server_stop_process m.env) i s) _ h in
      let (b, e2, h2) = >>=-eq-done (del_process_by_app_name a.1.slots a.0.app_name) _ h1 in
      removed_from a.0 a.1 b.0 b.1 name s' (on_slot-done (server_stop_process m.env) i s a.0 a.1 e)
        e2 (ground arith) (ground arith)

module _ (m : Machine) (buffer : Str) (s : Server) (r : Str) (s' : Server) (valid : IsValid s) where
  remove_listed-lem :
      (p : Process)
      → s.process_count < list_size
      → IsFound s buffer p
      → remove_listed m p s ≡ done (r, s')
      → IsValid s' × ((r, apps s') ≡ remove_spec buffer (apps s))
  unfolding remove_listed
  remove_listed-lem p room found h =
      let (i, e, h1) = >>=-eq-done (get_pos_in_process_list s p) _ h in
      let (a, e2, h2) = >>=-eq-done (server_remove_process m i s) _ h1 in
      let here : i ≡ found.index = ground (arith, get_pos-found s buffer p found) in
      let (named, v, erased) =
        server_remove_process-done m found.index s p valid room found.below found.at found.by_name
          a.0 a.1 (subst (λ k. server_remove_process m k s ≡ done a) here e2) in
      let ended : a.1 ≡ s' = ground arith in
      (subst IsValid ended v, ground (arith, erased, named, found.meant))

  -- On a valid service with a slot to spare, a removal that returns leaves a valid service, and the
  -- response and the list are those of the contract: an unknown program is reported, and one of
  -- the list is taken out, with a response that tells whether it ran; the others stay in order.
  pub remove_refines :
      s.process_count < list_size
      → server_remove_process_and_get_response m buffer s ≡ done (r, s')
      → IsValid s' × ((r, apps s') ≡ remove_spec buffer (apps s))
  unfolding server_remove_process_and_get_response
  remove_refines room h = elim (on_listed-done (remove_listed m) m buffer s r s' valid h) [
    | inl (unknown, said, same) ↦ (subst IsValid (sym same) valid, ground arith)
    | inr (p, found, e) ↦ remove_listed-lem p room found e
  ]
