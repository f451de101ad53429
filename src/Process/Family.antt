-- ===== src/Process/Family.antt =====
-- When `kill_process_by_pid` of src/process.c returns, and which processes it ends.
use kb_pm.Prelude.{
  ℕ, zero, suc, ◌≡◌, ◌≤◌, ◌<◌, ◌∙◌, refl, ap, List, [], ◌∷◌, map, arith, All, All-map, ℤ, pos, done,
  Outcome, ◌>>=◌,
}
use kb_pm.System.{Log, Event, record_event, Env}
use kb_pm.Proc.Children.{Task, children, IsSystem, Looked, Looked-height, get_child_pids_lem}
use kb_pm.Process.Kill.{kill_each, kill_process_by_pid, children_of}

-- Between the histories `log` and `last` the processes `pids` are ended one after the other, each with
-- all its descendants: its children are those that it has before its signal, and after the signal they
-- are ended in the same way. Besides these signals nothing is done but to scan /proc.
pub data Ends (tasks : Log → List Task) : Log → List ℕ → Log → Type 0 where
  nobody : {log : Log} → Ends tasks log [] log
  one_more :
      {log seen ended last : Log} {p : ℕ} {pids : List ℕ}
      → Looked log seen
      → Ends tasks (record_event seen (Event.killed (pos p))) (children (tasks log) p) ended
      → Ends tasks ended pids last
      → Ends tasks log (p ∷ pids) last

module _ (env : Env) (tasks : Log → List Task) (height : Log → ℕ → ℕ) where
  -- The call for one process returns, and ends its family; no tree has grown.
  abbrev IsEnding : ℕ → Log → Outcome Log Log → Type 0
  IsEnding p log call =
      (seen : Log) × (ended : Log) × (call ≡ done ended)
      × Looked log seen
      × Ends tasks (record_event seen (Event.killed (pos p))) (children (tasks log) p) ended
      × ((q : ℕ) → height ended q ≤ height log q)

  kill_each-Ends :
      (kill_child : ℤ → Log → Outcome Log Log) (bound : ℕ)
      → ((p : ℕ) (log : Log) → height log p < bound → IsEnding p log (kill_child (pos p) log))
      → (pids : List ℕ) (log : Log) → All (λ p. height log p < bound) pids
      → (last : Log) × (kill_each kill_child (map pos pids) log ≡ done last)
        × Ends tasks log pids last
        × ((q : ℕ) → height last q ≤ height log q)
  unfolding kill_each
  kill_each-Ends kill_child bound each [] log low = (log, refl, Ends.nobody, λ q. omega arith)
  kill_each-Ends kill_child bound each (p ∷ pids) log low =
      let (seen, ended, e1, look, family, falls) = each p log low.0 in
      let (last, e2, rest, falls') =
        kill_each-Ends kill_child bound each pids ended
          (All-map (λ q lower. omega (arith, lower, falls q)) pids low.1) in
      (
        last,
        ap (λ o. o >>= kill_each kill_child (map pos pids)) e1 ∙ e2,
        Ends.one_more look family rest,
        λ q. omega (arith, falls q, falls' q),
      )

  kill_process_by_pid-IsEnding :
      IsSystem env tasks height
      → (fuel p : ℕ) (log : Log) → height log p < fuel
      → IsEnding p log (kill_process_by_pid fuel env (pos p) log)
  unfolding kill_process_by_pid
  kill_process_by_pid-IsEnding system zero p log h = absurd (omega arith)
  kill_process_by_pid-IsEnding system (suc fuel) p log h =
      let (seen, e1, look) = get_child_pids_lem env tasks height system p log in
      let log2 = record_event seen (Event.killed (pos p)) in
      let grown = Looked-height env tasks height system log seen look in
      let falls : (q : ℕ) → height log2 q ≤ height log q =
        λ q. omega (arith, grown q, system.signalled seen (pos p) q) in
      let (ended, e2, family, falls') =
        kill_each-Ends (kill_process_by_pid fuel env) fuel
          (kill_process_by_pid-IsEnding system fuel) (children (tasks log) p) log2
          (All-map (λ c lower. omega (arith, lower, falls c, h)) (children (tasks log) p)
            (system.higher log p)) in
      (
        seen,
        ended,
        ap
              (λ o. o >>= λ (pids, log').
                kill_each (kill_process_by_pid fuel env) (children_of pids)
                  (record_event log' (Event.killed (pos p))))
              e1
            ∙ e2,
        look,
        family,
        λ q. omega (arith, falls q, falls' q),
      )

  -- On a system that always lists all its processes in /proc, behind entries whose names begin with
  -- no digit, whose processes do not change while /proc is scanned, have numbers from 1 to 32767,
  -- and are at most 4096, whose status files can be opened, have lines of fewer than 511 bytes and
  -- name the parent, and where signals let no tree of processes grow higher, the recursion on a
  -- bound above the height of the tree of `p` returns. It has signalled `p` and all its
  -- descendants, each before its children, which are those that it had before its signal, and has
  -- done nothing else but to scan /proc.
  pub kill_process_by_pid-Ends :
      IsSystem env tasks height
      → (fuel p : ℕ) (log : Log) → height log p < fuel
      → (last : Log) × (kill_process_by_pid fuel env (pos p) log ≡ done last)
        × Ends tasks log (p ∷ []) last
  kill_process_by_pid-Ends system fuel p log h =
      let (seen, ended, e, look, family, falls) =
        kill_process_by_pid-IsEnding system fuel p log h in
      (ended, e, Ends.one_more look family Ends.nobody)
