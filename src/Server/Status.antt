-- ===== src/Server/Status.antt =====
-- What `kbpm status` does to the programs.
use kb_pm.Prelude.{
  ℕ, zero, suc, ◌≡◌, ◌≤◌, refl, ap₂, sym, subst, Option, Option-cases, List, [], ◌∷◌, arith, length,
  ℤ, done, >>=-eq-done, Bool-cases, inl, inr, is_nonzero,
}
use kb_pm.CString.{Str}
use kb_pm.System.{Log, Env}
use kb_pm.Process.{Process}
use kb_pm.Process.Kill.{get_mem_by_pid}
use kb_pm.Process.Document.{CJson}
use kb_pm.Process.Json.{
  create_process_cjson_with_status, create_items_with_status,
  create_process_list_json_str_with_status, print_if_made,
}
use kb_pm.Machine.{Machine}
use kb_pm.Server.{Server}
use kb_pm.Server.Requests.{get_process_list_status}
use kb_pm.Server.Spec.{app_of, entries, apps, IsSettled, IsValid}
use kb_pm.Server.Effects.{IsSame}
use kb_pm.Server.Pointwise.{Pointwise, Keeps, Pointwise-map, Pointwise-refl, Pointwise-IsValid}

-- Nothing but the text about the memory is different.
abbrev pub IsMeasured : Process → Process → Type 0
IsMeasured p q = IsSame p q × (app_of q ≡ app_of p)

IsMeasured-refl : (p : Process) → IsMeasured p p
IsMeasured-refl p = (record { name = refl; cmd = refl; dir = refl; id = refl }, refl)

module _ (c : CJson) (env : Env) where
  measured :
      (p : Process) (j : c.Json) (log : Log) (j' : c.Json) (q : Process) (log' : Log)
      → create_process_cjson_with_status c env p j log ≡ done (j', q, log')
      → IsMeasured p q
  unfolding create_process_cjson_with_status
  measured p j log j' q log' h = elim (Bool-cases (is_nonzero p.is_running)) [
    | inr off ↦ ground arith
    | inl on ↦
        let (a, e, h1) = >>=-eq-done (get_mem_by_pid env p.pid log) _ (rw on at h) in ground arith
  ]

  create_items_with_status-Pointwise :
      (n : ℕ) (xs : List Process) (j : c.Json) (log : Log) (j' : Option c.Json) (ys : List Process)
      (log' : Log)
      → n ≤ length xs
      → create_items_with_status c env n xs j log ≡ done (j', ys, log')
      → Pointwise IsMeasured n xs ys
  unfolding create_items_with_status
  create_items_with_status-Pointwise zero xs j log j' ys log' len h = ground arith
  create_items_with_status-Pointwise (suc n) [] j log j' ys log' len h = absurd (omega arith)
  create_items_with_status-Pointwise (suc n) (x ∷ xs) j log j' ys log' len h =
      elim (Option-cases c.create_object) [
        | inl failed ↦
            let same : x ∷ xs ≡ ys = ground arith in
            subst (Pointwise IsMeasured (suc n) (x ∷ xs)) same
              (Pointwise-refl IsMeasured IsMeasured-refl (suc n) (x ∷ xs) len)
        | inr (o, made) ↦
            let (a, e, h1) =
              >>=-eq-done (create_process_cjson_with_status c env x o log) _
                (rw (made, create_items_with_status) at h) in
            let (b, e1, h2) =
              >>=-eq-done (create_items_with_status c env n xs (c.add_item_to_array j a.0) a.2) _
                h1 in
            let ended : a.1 ∷ b.1 ≡ ys = ground arith in
            subst (Pointwise IsMeasured (suc n) (x ∷ xs)) ended (
              measured x o log a.0 a.1 a.2 e,
              create_items_with_status-Pointwise n xs (c.add_item_to_array j a.0) a.2 b.0 b.1 b.2
                  (omega (arith, len)) e1,
            )
      ]

  -- The slots after the whole call.
  status-Pointwise :
      (n : ℕ) (xs : List Process) (response : Str) (log : Log) (res : ℤ) (r : Str)
      (ys : List Process) (log' : Log)
      → n ≤ length xs
      → create_process_list_json_str_with_status c env xs n response log ≡ done (res, (r, ys, log'))
      → Pointwise IsMeasured n xs ys
  unfolding create_process_list_json_str_with_status
  status-Pointwise n xs response log res r ys log' len h = elim (Option-cases c.create_array) [
    | inl failed ↦
        let same : xs ≡ ys = ground arith in
        subst (Pointwise IsMeasured n xs) same (Pointwise-refl IsMeasured IsMeasured-refl n xs len)
    | inr (j, made) ↦
        let (a, e, h1) =
          >>=-eq-done (create_items_with_status c env n xs j log) _
            (rw (made, create_process_list_json_str_with_status) at h) in
        let (b, e1, h2) = >>=-eq-done (print_if_made c response a.0) _ h1 in
        let ended : a.1 ≡ ys = ground arith in
        subst (Pointwise IsMeasured n xs) ended
          (create_items_with_status-Pointwise n xs j log a.0 a.1 a.2 len e)
  ]

entries-Measured :
    (n : ℕ) (xs ys : List Process) → Pointwise IsMeasured n xs ys → entries n ys ≡ entries n xs
entries-Measured zero xs ys h = refl
entries-Measured (suc n) [] ys h = absurd h
entries-Measured (suc n) (x ∷ xs) [] h = absurd h
entries-Measured (suc n) (x ∷ xs) (y ∷ ys) h = ap₂ ◌∷◌ h.0.1 (entries-Measured n xs ys h.1)

-- A status request that returns on a valid service leaves it valid, with the same programs.
pub get_process_list_status-refines :
    (m : Machine) (response : Str) (s : Server) (r : Str) (s' : Server)
    → IsValid s
    → get_process_list_status m response s ≡ done (r, s')
    → IsValid s' × (apps s' ≡ apps s)
unfolding get_process_list_status
get_process_list_status-refines m response s r s' valid h =
    let (a, e, h1) =
      >>=-eq-done
        (create_process_list_json_str_with_status m.json m.env s.slots s.process_count response
          s.log)
        _ h in
    let measured =
      status-Pointwise m.json m.env s.process_count s.slots response s.log a.0 a.1.0 a.1.1 a.1.2
        (omega (arith, valid.counted, valid.sized)) e in
    let kept =
      Pointwise-map IsMeasured Keeps (λ p q k. (k.0, λ settled. subst IsSettled (sym k.1) settled))
        s.process_count s.slots a.1.1 measured in
    let ended : record s { slots = a.1.1; log = a.1.2 } ≡ s' = ground arith in
    subst (λ x. IsValid x × (apps x ≡ apps s)) ended
      (
        Pointwise-IsValid s a.1.1 a.1.2 valid kept,
        entries-Measured s.process_count s.slots a.1.1 measured,
      )
