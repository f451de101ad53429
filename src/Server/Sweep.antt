-- ===== src/Server/Sweep.antt =====
-- `kbpm startall` and `kbpm stopall`
use kb_pm.Prelude.{
  ℕ, zero, suc, ◌≡◌, refl, ap, ap₂, subst, List, [], ◌∷◌, map, arith, done, >>=-eq-done, Bool-cases,
  inl, inr, ◌⊎◌, true, false, is_nonzero, pos, if◌then◌else◌,
}
use kb_pm.System.{Log, Env}
use kb_pm.Process.{Process}
use kb_pm.Machine.{Machine}
use kb_pm.Server.{Server}
use kb_pm.Server.Requests.{
  for_each_slot, start_if_stopped, stop_if_running, server_start_all_process,
  server_stop_all_process, count_running, get_running_process_count,
}
use kb_pm.Server.Spec.{App, app_of, entries, apps, IsValid}
use kb_pm.Server.Contract.{halt, begin}
use kb_pm.Server.Effects.{
  time_after_fork, server_start_process-done, server_stop_process-done, app_of-halt, app_of-begin,
  IsSettled-of_started,
}
use kb_pm.Server.Pointwise.{
  Pointwise, Keeps, Pointwise-map, Pointwise-IsValid, for_each_slot-Pointwise,
}

abbrev pub halt_if_running : App → App
halt_if_running a = if is_nonzero a.is_running then halt a else a

-- `q` is `p` after it was stopped, if it ran.
abbrev Swept : Process → Process → Type 0
Swept p q = Keeps p q × (app_of q ≡ halt_if_running (app_of p)) × (is_nonzero q.is_running ≡ false)

stop_if_running-Swept :
    (env : Env) (p : Process) (log : Log) (q : Process) (log' : Log)
    → stop_if_running env p log ≡ done (q, log')
    → Swept p q
stop_if_running-Swept env p log q log' h = elim (Bool-cases (is_nonzero p.is_running)) [
  | inl on ↦
      let stopped = server_stop_process-done env p log q log' on (ground arith) in
      (
        (stopped.same, λ _. inl (stopped.running, stopped.pid)),
        ground (arith, app_of-halt p q stopped),
        ground arith,
      )
  | inr off ↦
      let same : p ≡ q = ground arith in
      subst (Swept p) same (
        (record { name = refl; cmd = refl; dir = refl; id = refl }, λ settled. settled),
        rw off,
        off,
      )
]

entries-Swept :
    (n : ℕ) (xs ys : List Process)
    → Pointwise Swept n xs ys
    → entries n ys ≡ map halt_if_running (entries n xs)
entries-Swept zero xs ys h = refl
entries-Swept (suc n) [] ys h = absurd h
entries-Swept (suc n) (x ∷ xs) [] h = absurd h
entries-Swept (suc n) (x ∷ xs) (y ∷ ys) h = ap₂ ◌∷◌ h.0.1 (entries-Swept n xs ys h.1)

count_running-Swept :
    (n : ℕ) (xs ys : List Process) → Pointwise Swept n xs ys → count_running n ys ≡ 0
unfolding count_running
count_running-Swept zero xs ys h = refl
count_running-Swept (suc n) [] ys h = absurd h
count_running-Swept (suc n) (x ∷ xs) [] h = absurd h
count_running-Swept (suc n) (x ∷ xs) (y ∷ ys) h = rw h.0.2 (count_running-Swept n xs ys h.1)

module _ (m : Machine) (s s' : Server) where
  -- If it returns on a valid service, stopping all leaves a valid service on which the programs
  -- that ran are halted, nothing else is changed, and no program is counted as running.
  pub server_stop_all_process-refines :
      IsValid s
      → server_stop_all_process m s ≡ done s'
      → IsValid s' × (apps s' ≡ map halt_if_running (apps s)) × (get_running_process_count s' ≡ 0)
  unfolding server_stop_all_process get_running_process_count
  server_stop_all_process-refines valid h =
      let (a, e, h1) =
        >>=-eq-done (for_each_slot (stop_if_running m.env) s.process_count s.slots s.log) _ h in
      let swept =
        for_each_slot-Pointwise Swept (stop_if_running m.env) (stop_if_running-Swept m.env)
          s.process_count s.slots s.log a.0 a.1 e in
      let kept = Pointwise-map Swept Keeps (λ p q r. r.0) s.process_count s.slots a.0 swept in
      let ended : record s { slots = a.0; log = a.1 } ≡ s' = ground arith in
      subst
        (λ x.
          IsValid x
          × (apps x ≡ map halt_if_running (apps s))
          × (count_running x.process_count x.slots ≡ 0))
        ended
        (
          Pointwise-IsValid s a.0 a.1 valid kept,
          entries-Swept s.process_count s.slots a.0 swept,
          count_running-Swept s.process_count s.slots a.0 swept,
        )

-- What starting all does to one program: one that runs stays as it is, and one that does not runs
-- in the process that was forked for it.
abbrev pub IsRaised : Env → App → App → Type 0
IsRaised env a b =
    ((is_nonzero a.is_running ≡ true) × (b ≡ a))
    ⊎ ((is_nonzero a.is_running ≡ false)
        × ((log : Log) × (b ≡ begin (env.fork log) (time_after_fork env log) (pos 0) a)))

-- The same for the programs of a list, in their order.
abbrev pub AllRaised : Env → List App → List App → Type 0
AllRaised env [] [] = Unit
AllRaised env [] (b ∷ bs) = ⊥
AllRaised env (a ∷ list) [] = ⊥
AllRaised env (a ∷ list) (b ∷ bs) = IsRaised env a b × AllRaised env list bs

abbrev Raised : Env → Process → Process → Type 0
Raised env p q = Keeps p q × IsRaised env (app_of p) (app_of q) × (is_nonzero q.is_running ≡ true)

start_if_stopped-Raised :
    (env : Env) (p : Process) (log : Log) (q : Process) (log' : Log)
    → start_if_stopped env p log ≡ done (q, log')
    → Raised env p q
start_if_stopped-Raised env p log q log' h = elim (Bool-cases (is_nonzero p.is_running)) [
  | inr off ↦
      let started = server_start_process-done env p log q log' (ground arith) in
      (
        (started.same, λ _. IsSettled-of_started env log p q (pos 0) started),
        inr (off, (log, app_of-begin env log p q (pos 0) started)),
        ground arith,
      )
  | inl on ↦
      let same : p ≡ q = ground arith in
      subst (Raised env p) same (
        (record { name = refl; cmd = refl; dir = refl; id = refl }, λ settled. settled),
        inl (on, refl),
        on,
      )
]

entries-Raised :
    (env : Env) (n : ℕ) (xs ys : List Process)
    → Pointwise (Raised env) n xs ys
    → AllRaised env (entries n xs) (entries n ys)
entries-Raised env zero xs ys h = tt
entries-Raised env (suc n) [] ys h = absurd h
entries-Raised env (suc n) (x ∷ xs) [] h = absurd h
entries-Raised env (suc n) (x ∷ xs) (y ∷ ys) h = (h.0.1, entries-Raised env n xs ys h.1)

count_running-Raised :
    (env : Env) (n : ℕ) (xs ys : List Process)
    → Pointwise (Raised env) n xs ys
    → count_running n ys ≡ n
unfolding count_running
count_running-Raised env zero xs ys h = refl
count_running-Raised env (suc n) [] ys h = absurd h
count_running-Raised env (suc n) (x ∷ xs) [] h = absurd h
count_running-Raised env (suc n) (x ∷ xs) (y ∷ ys) h =
    rw h.0.2 (ap suc (count_running-Raised env n xs ys h.1))

module _ (m : Machine) (s s' : Server) where
  -- If it returns on a valid service, starting all leaves a valid service on which every program
  -- that ran is as it was, every other one runs in a process that was forked for it, and all
  -- programs are counted as running.
  pub server_start_all_process-refines :
      IsValid s
      → server_start_all_process m s ≡ done s'
      → IsValid s'
        × AllRaised m.env (apps s) (apps s')
        × (get_running_process_count s' ≡ s.process_count)
  unfolding server_start_all_process get_running_process_count
  server_start_all_process-refines valid h =
      let (a, e, h1) =
        >>=-eq-done (for_each_slot (start_if_stopped m.env) s.process_count s.slots s.log) _ h in
      let raised =
        for_each_slot-Pointwise (Raised m.env) (start_if_stopped m.env)
          (start_if_stopped-Raised m.env) s.process_count s.slots s.log a.0 a.1 e in
      let kept =
        Pointwise-map (Raised m.env) Keeps (λ p q r. r.0) s.process_count s.slots a.0 raised in
      let ended : record s { slots = a.0; log = a.1 } ≡ s' = ground arith in
      subst
        (λ x.
          IsValid x
          × AllRaised m.env (apps s) (apps x)
          × (count_running x.process_count x.slots ≡ s.process_count))
        ended
        (
          Pointwise-IsValid s a.0 a.1 valid kept,
          entries-Raised m.env s.process_count s.slots a.0 raised,
          count_running-Raised m.env s.process_count s.slots a.0 raised,
        )
