-- ===== src/Server/Revival.antt =====
-- A program of the service ends.
use kb_pm.Prelude.{
  ℕ, zero, suc, ◌≡◌, ◌≢◌, ◌<◌, ◌≤◌, refl, sym, subst, some, List, [], ◌∷◌, arith, length, get_elem?,
  true, false, ℤ, pos, done, Outcome, Bool-cases, inl, inr, is_nonzero, suc_ℤ, eq_ℤ, eq_of_eq_ℤ,
  eq_ℤ_refl,
}
use kb_pm.System.{Log, Event, record_event, Env}
use kb_pm.Process.{Process}
use kb_pm.Machine.{Machine}
use kb_pm.Server.{Server}
use kb_pm.Server.Service.{revive, reap, before_wait, await_child}
use kb_pm.Server.Spec.{IsValid}
use kb_pm.Server.Effects.{IsStarted, server_start_process-done}
use kb_pm.Server.Progress.{IsForking, server_start_process-Returns, reap-AllReturn}

-- No program in the first `j` slots has this process.
abbrev pub NoneBefore : ℤ → ℕ → List Process → Type 0
NoneBefore pid zero slots = Unit
NoneBefore pid (suc j) [] = Unit
NoneBefore pid (suc j) (p ∷ slots) = (p.pid ≢ pid) × NoneBefore pid j slots

-- The program is given up if it has started at the time `now`, and else it is started again.
pub record IsContinued (env : Env) (now : ℤ) (p q : Process) : Type 0 where
  pub quick : p.start_time ≡ now → q ≡ record p { is_running = pos 0; pid = pos 0 }
  pub later : p.start_time ≢ now → (log : Log) × IsStarted env log p q (suc_ℤ p.restart_times)

-- The loop returns, and this is what it leaves in slot `j`.
abbrev pub Continues : Env → ℤ → ℕ → Process → Outcome Log (List Process × Log) → Type 0
Continues env now j p call =
    (ys : List Process) × (log' : Log) × (q : Process) × (call ≡ done (ys, log'))
    × (get_elem? ys j ≡ some q)
    × IsContinued env now p q

eq_ℤ-differs : (a b : ℤ) → a ≢ b → eq_ℤ a b ≡ false
eq_ℤ-differs a b ne = elim (Bool-cases (eq_ℤ a b)) [
  | inl e ↦ absurd (ne (eq_of_eq_ℤ a b e))
  | inr e ↦ e
]

module _ (env : Env) (forking : IsForking env) where
  reap_first :
      (p : Process) (n : ℕ) (xs : List Process) (log : Log)
      → n ≤ length xs
      → is_nonzero p.is_running ≡ true
      → Continues env (env.time log) 0 p (reap env p.pid (suc n) (p ∷ xs) log)
  unfolding reap revive
  reap_first p n xs log le on =
      let timed = record_event log (Event.read_clock (env.time log)) in
      elim (Bool-cases (eq_ℤ p.start_time (env.time log))) [
        | inl quick ↦ (
          record p { is_running = pos 0; pid = pos 0 } ∷ xs,
          timed,
          record p { is_running = pos 0; pid = pos 0 },
          rw (eq_ℤ_refl p.pid) (rw on (rw quick)),
          refl,
          record {
            quick = λ _. refl;
            later = λ ne. absurd (ne (eq_of_eq_ℤ p.start_time (env.time log) quick));
          },
        )
        | inr slow ↦
            let (q, log1, e1) = server_start_process-Returns env p timed forking in
            let (ys, log2, e2) =
              reap-AllReturn env p.pid forking n xs (record_event log1 (Event.slept 100000)) le in
            let started = server_start_process-done env p timed q log1 e1 in
            (
              record q { restart_times = suc_ℤ p.restart_times } ∷ ys,
              log2,
              record q { restart_times = suc_ℤ p.restart_times },
              rw (eq_ℤ_refl p.pid) (rw on (rw slow (rw e1 (rw e2)))),
              refl,
              record {
                quick = λ same. absurd (ground arith);
                later = λ ne. (
                  timed,
                  record {
                    same = record {
                      name = started.same.name;
                      cmd = started.same.cmd;
                      dir = started.same.dir;
                      id = started.same.id;
                    };
                    running = started.running;
                    live = started.live;
                    pid = started.pid;
                    start = started.start;
                    times = refl;
                  },
                );
              },
            )
      ]

  reap-Continues :
      (j n : ℕ) (p : Process) (xs : List Process) (log : Log)
      → j < n
      → n ≤ length xs
      → get_elem? xs j ≡ some p
      → is_nonzero p.is_running ≡ true
      → NoneBefore p.pid j xs
      → Continues env (env.time log) j p (reap env p.pid n xs log)
  unfolding reap
  reap-Continues j zero p xs log lt le at on others = absurd (omega arith)
  reap-Continues j (suc n) p [] log lt le at on others = absurd (omega arith)
  reap-Continues zero (suc n) p (x ∷ xs) log lt le at on others =
      let same : x ≡ p = ground arith in
      subst (λ y. Continues env (env.time log) 0 p (reap env p.pid (suc n) (y ∷ xs) log)) (sym same)
        (reap_first p n xs log (omega (arith, le)) on)
  reap-Continues (suc j) (suc n) p (x ∷ xs) log lt le at on others =
      let (ys, log', q, e, at', continued) =
        reap-Continues j n p xs log (omega arith) (omega (arith, le)) at on others.1 in
      (x ∷ ys, log', q, rw (eq_ℤ-differs x.pid p.pid others.0) (rw e), at', continued)

-- When the process of a running program of a valid service ends, and `fork` never fails, the round of
-- waiting that is told of it returns. The first program with that process then runs again, in a
-- process that was forked for it and with one more restart counted, unless it had started at the very
-- time that the clock shows: then it is given up.
pub await_child-continues :
    (m : Machine) (s : Server) (j : ℕ) (p : Process)
    → IsValid s
    → IsForking m.env
    → j < s.process_count
    → get_elem? s.slots j ≡ some p
    → is_nonzero p.is_running ≡ true
    → m.env.wait (before_wait s) ≡ p.pid
    → NoneBefore p.pid j s.slots
    → (s' : Server) × (q : Process) × (await_child m s ≡ done s')
      × (get_elem? s'.slots j ≡ some q)
      × IsContinued m.env (m.env.time (record_event (before_wait s) (Event.waited p.pid))) p q
unfolding await_child
await_child-continues m s j p valid forking lt at on ended first =
    let (ys, log', q, e, at', continued) =
      reap-Continues m.env forking j s.process_count p s.slots
        (record_event (before_wait s) (Event.waited p.pid)) lt
        (omega (arith, valid.counted, valid.sized)) at on first in
    (record s { slots = ys; log = log' }, q, rw ended (rw e), at', continued)
