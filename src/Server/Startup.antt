-- ===== src/Server/Startup.antt =====
-- `service_start` up to its loop, on a list that was saved.
use kb_pm.Prelude.{
  ℕ, zero, suc, ◌≡◌, ◌≢◌, ◌≤◌, ◌∙◌, refl, ap, sym, subst, List, [], ◌∷◌, arith, length, drop, All,
  Outcome, done, >>=-eq-done, Bool-cases, inl, inr, ◌⊎◌, true, false, ℤ, pos, is_nonzero, replicate,
  Option, if◌then◌else◌,
}
use kb_pm.CString.{Str, eq_str}
use kb_pm.System.{Log, Env}
use kb_pm.Process.{Process, list_size}
use kb_pm.Process.Json.{parse_process_list_from_path}
use kb_pm.Machine.{Machine}
use kb_pm.Server.{Server}
use kb_pm.Server.Control.{server_start_process}
use kb_pm.Server.Boot.{service_start-IsStart}
use kb_pm.Server.Service.{start_saved, service_start, loaded_count, zero_process}
use kb_pm.Server.Spec.{
  App, app_of, entries, apps, IsAbsent, IsGood, IsSettled, IsVacant, IsNumbered, IsValid,
}
use kb_pm.Server.Contract.{begin}
use kb_pm.Server.Effects.{
  time_after_fork, server_start_process-done, app_of-begin, IsSettled-of_started,
}

-- A program that was saved as running runs in the process that was forked for it, and any other is
-- as it was saved.
abbrev pub IsResumed : Env → App → App → Type 0
IsResumed env a b =
    ((is_nonzero a.is_running ≡ false) × (b ≡ a))
    ⊎ ((is_nonzero a.is_running ≡ true)
        × ((log : Log) × (b ≡ begin (env.fork log) (time_after_fork env log) (pos 0) a)))

abbrev pub AllResumed : Env → List App → List App → Type 0
AllResumed env [] [] = Unit
AllResumed env [] (b ∷ bs) = ⊥
AllResumed env (a ∷ list) [] = ⊥
AllResumed env (a ∷ list) (b ∷ bs) = IsResumed env a b × AllResumed env list bs

-- The programs have distinct names, and one that does not run has no process.
abbrev pub IsNamed : List App → Type 0
IsNamed [] = Unit
IsNamed (a ∷ list) =
    (a.name ≢ [])
    × (is_nonzero a.is_running ≡ false → a.pid ≡ pos 0)
    × IsAbsent a.name list
    × IsNamed list

-- What a saved list must be: `n` programs at the start of the array, and nothing behind them.
pub record IsLoaded (n : ℕ) (slots : List Process) : Type 0 where
  pub sized : length slots ≡ list_size
  pub counted : n ≤ list_size
  pub vacant : All IsVacant (drop n slots)
  pub named : IsNamed (entries n slots)

abbrev Begun : Env → ℕ → Process → Process → Type 0
Begun env i p q =
    (q.app_name ≡ p.app_name)
    × (q.id ≡ pos i)
    × IsResumed env (app_of p) (app_of q)
    × ((is_nonzero p.is_running ≡ false → p.pid ≡ pos 0) → IsSettled (app_of q))

abbrev AllBegun : Env → ℕ → ℕ → List Process → List Process → Type 0
AllBegun env i zero xs ys = xs ≡ ys
AllBegun env i (suc n) [] ys = ⊥
AllBegun env i (suc n) (x ∷ xs) [] = ⊥
AllBegun env i (suc n) (x ∷ xs) (y ∷ ys) = Begun env i x y × AllBegun env (suc i) n xs ys

abbrev start_if_saved_running : Env → Process → Log → Outcome Log (Process × Log)
start_if_saved_running env p log =
    if is_nonzero p.is_running then server_start_process env p log else done (p, log)

is_running_zero : (n : ℤ) → is_nonzero n ≡ false → n ≡ pos 0
is_running_zero n h = ground arith

start_if_saved_running-Begun :
    (env : Env) (i : ℕ) (p : Process) (log : Log) (q : Process) (log' : Log)
    → start_if_saved_running env (record p { id = pos i }) log ≡ done (q, log')
    → Begun env i p q
start_if_saved_running-Begun env i p log q log' h =
    let numbered : Process = record p { id = pos i } in
    elim (Bool-cases (is_nonzero p.is_running)) [
      | inl on ↦
          let started = server_start_process-done env numbered log q log' (ground arith) in
          (
            started.same.name,
            started.same.id,
            inr (on, (log, app_of-begin env log numbered q (pos 0) started)),
            λ _. IsSettled-of_started env log numbered q (pos 0) started,
          )
      | inr off ↦
          let same : numbered ≡ q = ground arith in
          subst (Begun env i p) same
            (refl, refl, inl (off, refl), λ idle. inl (is_running_zero p.is_running off, idle off))
    ]

start_saved-AllBegun :
    (env : Env) (i n : ℕ) (xs : List Process) (log : Log) (ys : List Process) (log' : Log)
    → start_saved env i n xs log ≡ done (ys, log')
    → AllBegun env i n xs ys
unfolding start_saved
start_saved-AllBegun env i zero xs log ys log' h = ground arith
start_saved-AllBegun env i (suc n) [] log ys log' h = absurd (cc)
start_saved-AllBegun env i (suc n) (x ∷ xs) log ys log' h =
    let (a, e, h1) = >>=-eq-done (start_if_saved_running env (record x { id = pos i }) log) _ h in
    let (b, e1, h2) = >>=-eq-done (start_saved env (suc i) n xs a.1) _ h1 in
    let ended : a.0 ∷ b.0 ≡ ys = ground arith in
    subst (AllBegun env i (suc n) (x ∷ xs)) ended (
      start_if_saved_running-Begun env i x log a.0 a.1 e,
      start_saved-AllBegun env (suc i) n xs a.1 b.0 b.1 e1,
    )

module _ (env : Env) where
  length-AllBegun :
      (i n : ℕ) (xs ys : List Process) → AllBegun env i n xs ys → length ys ≡ length xs
  length-AllBegun i zero xs ys h = ap length (sym h)
  length-AllBegun i (suc n) [] ys h = absurd h
  length-AllBegun i (suc n) (x ∷ xs) [] h = absurd h
  length-AllBegun i (suc n) (x ∷ xs) (y ∷ ys) h = ap suc (length-AllBegun (suc i) n xs ys h.1)

  IsNumbered-AllBegun :
      (i n : ℕ) (xs ys : List Process)
      → AllBegun env i n xs ys
      → All IsVacant (drop n xs)
      → IsNumbered i n ys
  IsNumbered-AllBegun i zero xs ys h vacant = subst (All IsVacant) h vacant
  IsNumbered-AllBegun i (suc n) [] ys h vacant = absurd h
  IsNumbered-AllBegun i (suc n) (x ∷ xs) [] h vacant = absurd h
  IsNumbered-AllBegun i (suc n) (x ∷ xs) (y ∷ ys) h vacant =
      (h.0.1, IsNumbered-AllBegun (suc i) n xs ys h.1 vacant)

  IsAbsent-AllBegun :
      (name : Str) (i n : ℕ) (xs ys : List Process)
      → AllBegun env i n xs ys
      → IsAbsent name (entries n xs)
      → IsAbsent name (entries n ys)
  IsAbsent-AllBegun name i zero xs ys h absent = tt
  IsAbsent-AllBegun name i (suc n) [] ys h absent = absurd h
  IsAbsent-AllBegun name i (suc n) (x ∷ xs) [] h absent = absurd h
  IsAbsent-AllBegun name i (suc n) (x ∷ xs) (y ∷ ys) h absent = (
    ap (λ k. eq_str k name) h.0.0 ∙ absent.0,
    IsAbsent-AllBegun name (suc i) n xs ys h.1 absent.1,
  )

  IsGood-AllBegun :
      (i n : ℕ) (xs ys : List Process)
      → AllBegun env i n xs ys
      → IsNamed (entries n xs)
      → IsGood (entries n ys)
  IsGood-AllBegun i zero xs ys h named = tt
  IsGood-AllBegun i (suc n) [] ys h named = absurd h
  IsGood-AllBegun i (suc n) (x ∷ xs) [] h named = absurd h
  IsGood-AllBegun i (suc n) (x ∷ xs) (y ∷ ys) h named =
      let same = h.0.0 in
      (
        (λ e. named.0 (sym same ∙ e)),
        h.0.3 named.1,
        subst (λ k. IsAbsent k (entries n ys)) (sym same)
            (IsAbsent-AllBegun x.app_name (suc i) n xs ys h.1 named.2),
        IsGood-AllBegun (suc i) n xs ys h.1 named.3,
      )

  entries-AllBegun :
      (i n : ℕ) (xs ys : List Process)
      → AllBegun env i n xs ys
      → AllResumed env (entries n xs) (entries n ys)
  entries-AllBegun i zero xs ys h = tt
  entries-AllBegun i (suc n) [] ys h = absurd h
  entries-AllBegun i (suc n) (x ∷ xs) [] h = absurd h
  entries-AllBegun i (suc n) (x ∷ xs) (y ∷ ys) h = (h.0.2, entries-AllBegun (suc i) n xs ys h.1)

-- If the saved list is a good one and the start of the service returns, the service is valid: it
-- holds the saved programs in their order, of which those that were saved as running run in the
-- processes forked for them, and the others are as they were saved.
pub service_start-refines :
    (m : Machine) (config : Option Str) (log : Log) (res : ℤ) (slots : List Process) (s : Server)
    → parse_process_list_from_path m.json m.fallthrough config
        (m.stale log)
        (replicate list_size zero_process)
      ≡ done (res, slots)
    → IsLoaded (loaded_count res) slots
    → service_start m config log ≡ done s
    → IsValid s × AllResumed m.env (entries (loaded_count res) slots) (apps s)
service_start-refines m config log res slots s loads loaded h =
    let n = loaded_count res in
    let calls = service_start-IsStart m config log s h in
    let same_res : calls.res ≡ res = ground arith in
    let same_slots : calls.loaded ≡ slots = ground arith in
    let started = calls.started in
    let begins : start_saved m.env 0 n slots calls.ready ≡ done (started, calls.log') =
      subst
        (λ r. start_saved m.env 0 (loaded_count r) slots calls.ready ≡ done (started, calls.log'))
        same_res
        (subst
          (λ l.
            start_saved m.env 0 (loaded_count calls.res) l calls.ready ≡ done (started, calls.log'))
          same_slots calls.starts) in
    let begun = start_saved-AllBegun m.env 0 n slots calls.ready started calls.log' begins in
    let ended : record { slots = started; process_count = n; log = calls.log' } ≡ s =
      ap (λ r. record { slots = started; process_count = loaded_count r; log = calls.log' })
        (sym same_res)
      ∙ calls.result in
    subst (λ x. IsValid x × AllResumed m.env (entries n slots) (apps x)) ended
      (
        record {
          sized = length-AllBegun m.env 0 n slots started begun ∙ loaded.sized;
          counted = loaded.counted;
          numbered = IsNumbered-AllBegun m.env 0 n slots started begun loaded.vacant;
          good = IsGood-AllBegun m.env 0 n slots started begun loaded.named;
        },
        entries-AllBegun m.env 0 n slots started begun,
      )
