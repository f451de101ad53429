-- ===== src/Server/Reap.antt =====
-- The service notices that a child has ended.
use kb_pm.Prelude.{
  ◌≤◌, length, ℕ, zero, suc, ◌≡◌, refl, ap, subst, List, [], ◌∷◌, arith, done, >>=-eq-done,
  Bool-cases, inl, inr, ◌⊎◌, true, ℤ, is_nonzero, pos, suc_ℤ, eq_ℤ, eq_of_eq_ℤ,
}
use kb_pm.System.{Log, Env, Event, record_event}
use kb_pm.Process.{Process}
use kb_pm.Machine.{Machine}
use kb_pm.Server.{Server}
use kb_pm.Server.Control.{server_start_process}
use kb_pm.Server.Service.{revive, reap, put_before, before_wait, await_child}
use kb_pm.Server.Spec.{App, app_of, entries, apps, IsValid}
use kb_pm.Server.Contract.{begin}
use kb_pm.Server.Effects.{time_after_fork, server_start_process-done, app_of-begin}
use kb_pm.Server.Pointwise.{Pointwise, Keeps, Pointwise-map, Pointwise-IsValid}

-- What the end of the child `pid` does to one program.
abbrev pub IsReaped : Env → ℤ → App → App → Type 0
IsReaped env pid a b =
    (b ≡ a)
    ⊎ (((a.pid ≡ pid)
          × (is_nonzero a.is_running ≡ true)
          × (b ≡ record a { is_running = pos 0; pid = pos 0 }))
        ⊎ ((log : Log) × (a.pid ≡ pid)
            × (is_nonzero a.is_running ≡ true)
            × (b ≡ begin (env.fork log) (time_after_fork env log) (suc_ℤ a.restart_times) a)))

abbrev pub AllReaped : Env → ℤ → List App → List App → Type 0
AllReaped env pid [] [] = Unit
AllReaped env pid [] (b ∷ bs) = ⊥
AllReaped env pid (a ∷ list) [] = ⊥
AllReaped env pid (a ∷ list) (b ∷ bs) = IsReaped env pid a b × AllReaped env pid list bs

abbrev Reaped : Env → ℤ → Process → Process → Type 0
Reaped env pid p q = Keeps p q × IsReaped env pid (app_of p) (app_of q)

Keeps-refl : (p : Process) → Keeps p p
Keeps-refl p = (record { name = refl; cmd = refl; dir = refl; id = refl }, λ settled. settled)

Pointwise-Reaped_refl :
    (env : Env) (pid : ℤ) (n : ℕ) (xs : List Process)
    → n ≤ length xs
    → Pointwise (Reaped env pid) n xs xs
Pointwise-Reaped_refl env pid zero xs h = refl
Pointwise-Reaped_refl env pid (suc n) [] h = absurd (omega arith)
Pointwise-Reaped_refl env pid (suc n) (x ∷ xs) h =
    ((Keeps-refl x, inl refl), Pointwise-Reaped_refl env pid n xs (omega arith))

revive-Reaped :
    (env : Env) (p : Process) (log : Log) (q : Process) (log' : Log)
    → is_nonzero p.is_running ≡ true
    → revive env p log ≡ done (q, log')
    → Reaped env p.pid p q
unfolding revive
revive-Reaped env p log q log' on h =
    let (a, e, h1) = >>=-eq-done (server_start_process env p log) _ h in
    let started = server_start_process-done env p log a.0 a.1 e in
    let ended : record a.0 { restart_times = suc_ℤ p.restart_times } ≡ q = ground arith in
    subst (Reaped env p.pid p) ended (
      (
        (
          record {
            name = started.same.name;
            cmd = started.same.cmd;
            dir = started.same.dir;
            id = started.same.id;
          },
          λ _. inr (started.running, started.live),
        ),
        inr (
            inr (
              log,
              refl,
              on,
              ap (λ (b : App). record b { restart_times = suc_ℤ p.restart_times })
                  (app_of-begin env log p a.0 (pos 0) started),
            )),
      ))

-- The rest of the loop, with the slot before it.
reap_rest :
    (env : Env) (pid : ℤ) (n : ℕ) (x q : Process) (xs : List Process) (log : Log)
    (ys : List Process) (log' : Log)
    → Reaped env pid x q
    → ((zs : List Process) (log'' : Log)
        → reap env pid n xs log ≡ done (zs, log'')
        → Pointwise (Reaped env pid) n xs zs)
    → put_before q (reap env pid n xs log) ≡ done (ys, log')
    → Pointwise (Reaped env pid) (suc n) (x ∷ xs) ys
reap_rest env pid n x q xs log ys log' first rest h =
    let (a, e, h1) = >>=-eq-done (reap env pid n xs log) _ h in
    let ended : q ∷ a.0 ≡ ys = ground arith in
    subst (Pointwise (Reaped env pid) (suc n) (x ∷ xs)) ended (first, rest a.0 a.1 e)

reap-Pointwise :
    (env : Env) (pid : ℤ) (n : ℕ) (xs : List Process) (log : Log) (ys : List Process) (log' : Log)
    → n ≤ length xs
    → reap env pid n xs log ≡ done (ys, log')
    → Pointwise (Reaped env pid) n xs ys
unfolding reap
reap-Pointwise env pid zero xs log ys log' le h = ground arith
reap-Pointwise env pid (suc n) [] log ys log' le h = absurd (omega arith)
reap-Pointwise env pid (suc n) (x ∷ xs) log ys log' le h =
    let rest = λ (l : Log) (zs : List Process) (l' : Log).
      reap-Pointwise env pid n xs l zs l' (omega arith) in
    elim (Bool-cases (eq_ℤ x.pid pid)) [
      | inr other ↦
          reap_rest env pid n x x xs log ys log' (Keeps-refl x, inl refl) (rest log) (rw other at h)
      | inl mine ↦ elim (Bool-cases (is_nonzero x.is_running)) [
        | inr off ↦
            let ended : x ∷ xs ≡ ys = ground arith in
            subst (Pointwise (Reaped env pid) (suc n) (x ∷ xs)) ended
              (Pointwise-Reaped_refl env pid (suc n) (x ∷ xs) le)
        | inl on ↦ elim (Bool-cases (eq_ℤ x.start_time (env.time log))) [
          | inl quick ↦
              let ended : record x { is_running = pos 0; pid = pos 0 } ∷ xs ≡ ys = ground arith in
              subst (Pointwise (Reaped env pid) (suc n) (x ∷ xs)) ended (
                (
                  (
                    record { name = refl; cmd = refl; dir = refl; id = refl },
                    λ _. inl (refl, refl),
                  ),
                  inr (inl (eq_of_eq_ℤ x.pid pid mine, on, refl)),
                ),
                Pointwise-Reaped_refl env pid n xs (omega arith),
              )
          | inr slow ↦
              let timed = record_event log (Event.read_clock (env.time log)) in
              let (a, e, h1) = >>=-eq-done (revive env x timed) _ (rw (mine, on, slow) at h) in
              reap_rest env pid n x a.0 xs a.1 ys log'
                (subst (λ k. Reaped env k x a.0) (eq_of_eq_ℤ x.pid pid mine)
                  (revive-Reaped env x timed a.0 a.1 on e))
                (rest a.1) h1
        ]
      ]
    ]

entries-Reaped :
    (env : Env) (pid : ℤ) (n : ℕ) (xs ys : List Process)
    → Pointwise (Reaped env pid) n xs ys
    → AllReaped env pid (entries n xs) (entries n ys)
entries-Reaped env pid zero xs ys h = tt
entries-Reaped env pid (suc n) [] ys h = absurd h
entries-Reaped env pid (suc n) (x ∷ xs) [] h = absurd h
entries-Reaped env pid (suc n) (x ∷ xs) (y ∷ ys) h = (h.0.1, entries-Reaped env pid n xs ys h.1)

-- On a valid service, a round of waiting that returns leaves a valid service. For the child that
-- `wait` answered, each program is as it was, or it is one that was running with that number and
-- has been given up, or has been started again with one more restart counted.
pub await_child-refines :
    (m : Machine) (s s' : Server)
    → IsValid s
    → await_child m s ≡ done s'
    → IsValid s' × AllReaped m.env (m.env.wait (before_wait s)) (apps s) (apps s')
unfolding await_child
await_child-refines m s s' valid h =
    let pid = m.env.wait (before_wait s) in
    let (a, e, h1) =
      >>=-eq-done
        (reap m.env pid s.process_count s.slots (record_event (before_wait s) (Event.waited pid))) _
        h in
    let reaped =
      reap-Pointwise m.env pid s.process_count s.slots
        (record_event (before_wait s) (Event.waited pid)) a.0 a.1
        (omega (arith, valid.counted, valid.sized)) e in
    let kept =
      Pointwise-map (Reaped m.env pid) Keeps (λ p q r. r.0) s.process_count s.slots a.0 reaped in
    let ended : record s { slots = a.0; log = a.1 } ≡ s' = ground arith in
    subst (λ x. IsValid x × AllReaped m.env pid (apps s) (apps x)) ended
      (
        Pointwise-IsValid s a.0 a.1 valid kept,
        entries-Reaped m.env pid s.process_count s.slots a.0 reaped,
      )
