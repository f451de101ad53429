-- ===== src/Server/Progress.antt =====
-- When the start of all programs and a round of waiting for a child return, of src/server.c.
use kb_pm.Prelude.{
  ℕ, zero, suc, ◌≡◌, ◌<◌, ◌≤◌, refl, List, [], ◌∷◌, arith, length, ℤ, pos, pos_part, done, Outcome,
  Bool-cases, inl, inr, is_nonzero, suc_ℤ, eq_ℤ,
}
use kb_pm.System.{Log, Event, record_event, Env}
use kb_pm.Process.{Process}
use kb_pm.Machine.{Machine}
use kb_pm.Server.{Server}
use kb_pm.Server.Control.{server_start_process}
use kb_pm.Server.Requests.{for_each_slot, start_if_stopped, server_start_all_process}
use kb_pm.Server.Service.{revive, reap, put_before, before_wait, await_child}
use kb_pm.Server.Spec.{IsValid}
use kb_pm.Server.Full.{after_fork-parent}

-- `fork` never fails, and answers the service and not the child.
abbrev pub IsForking : Env → Type 0
IsForking env = (log : Log) → 0 < pos_part (env.fork log)

-- A call on one program returns.
abbrev pub Returns : Outcome Log (Process × Log) → Type 0
Returns call = (q : Process) × (log' : Log) × (call ≡ done (q, log'))

abbrev pub AllReturn : Outcome Log (List Process × Log) → Type 0
AllReturn call = (slots' : List Process) × (log' : Log) × (call ≡ done (slots', log'))

pub server_start_process-Returns :
    (env : Env) (p : Process) (log : Log) → IsForking env → Returns (server_start_process env p log)
unfolding server_start_process
server_start_process-Returns env p log forking =
    after_fork-parent env p (record_event log (Event.forked (env.fork log))) (env.fork log)
      (forking log)

start_if_stopped-Returns :
    (env : Env) (p : Process) (log : Log) → IsForking env → Returns (start_if_stopped env p log)
start_if_stopped-Returns env p log forking = elim (Bool-cases (is_nonzero p.is_running)) [
  | inl on ↦ (p, log, rw on)
  | inr off ↦ rw off (server_start_process-Returns env p log forking)
]

for_each_slot-AllReturn :
    (f : Process → Log → Outcome Log (Process × Log))
    → ((p : Process) (log : Log) → Returns (f p log))
    → (n : ℕ) (xs : List Process) (log : Log) → n ≤ length xs
    → AllReturn (for_each_slot f n xs log)
unfolding for_each_slot
for_each_slot-AllReturn f each zero xs log h = (xs, log, refl)
for_each_slot-AllReturn f each (suc n) [] log h = absurd (omega arith)
for_each_slot-AllReturn f each (suc n) (x ∷ xs) log h =
    let (q, log1, e1) = each x log in
    let (ys, log2, e2) = for_each_slot-AllReturn f each n xs log1 (omega (arith, h)) in
    (q ∷ ys, log2, rw e1 (rw e2))

put_before-AllReturn :
    (p : Process) (rest : Outcome Log (List Process × Log))
    → AllReturn rest
    → AllReturn (put_before p rest)
put_before-AllReturn p rest (ys, log', e) = (p ∷ ys, log', rw e)

pub reap-AllReturn :
    (env : Env) (pid : ℤ)
    → IsForking env
    → (n : ℕ) (xs : List Process) (log : Log) → n ≤ length xs
    → AllReturn (reap env pid n xs log)
unfolding reap revive
reap-AllReturn env pid forking zero xs log h = (xs, log, refl)
reap-AllReturn env pid forking (suc n) [] log h = absurd (omega arith)
reap-AllReturn env pid forking (suc n) (x ∷ xs) log h =
    let timed = record_event log (Event.read_clock (env.time log)) in
    let rest = λ (log' : Log). reap-AllReturn env pid forking n xs log' (omega (arith, h)) in
    elim (Bool-cases (eq_ℤ x.pid pid)) [
      | inr other ↦ rw other (put_before-AllReturn x (reap env pid n xs log) (rest log))
      | inl same ↦ elim (Bool-cases (is_nonzero x.is_running)) [
        | inr off ↦ (x ∷ xs, log, rw same (rw off))
        | inl on ↦ elim (Bool-cases (eq_ℤ x.start_time (env.time log))) [
          | inl quick ↦
              (record x { is_running = pos 0; pid = pos 0 } ∷ xs, timed, rw same (rw on (rw quick)))
          | inr slow ↦
              let (q, log1, e1) = server_start_process-Returns env x timed forking in
              let (ys, log2, e2) = rest (record_event log1 (Event.slept 100000)) in
              (
                record q { restart_times = suc_ℤ x.restart_times } ∷ ys,
                log2,
                rw same (rw on (rw slow (rw e1 (rw e2)))),
              )
        ]
      ]
    ]

-- On a valid service, if `fork` never fails, starting all programs returns, and so does each round
-- of waiting.
pub rounds_return :
    (m : Machine) (s : Server)
    → IsValid s
    → IsForking m.env
    → ((s' : Server) × (server_start_all_process m s ≡ done s'))
      × ((s' : Server) × (await_child m s ≡ done s'))
unfolding server_start_all_process await_child
rounds_return m s valid forking =
    let room : s.process_count ≤ length s.slots = omega (arith, valid.counted, valid.sized) in
    let waited = record_event (before_wait s) (Event.waited (m.env.wait (before_wait s))) in
    let (xs, log1, e1) =
      for_each_slot-AllReturn (start_if_stopped m.env)
        (λ p log. start_if_stopped-Returns m.env p log forking) s.process_count s.slots s.log
        room in
    let (ys, log2, e2) =
      reap-AllReturn m.env (m.env.wait (before_wait s)) forking s.process_count s.slots waited
        room in
    ((record s { slots = xs; log = log1 }, rw e1), (record s { slots = ys; log = log2 }, rw e2))
