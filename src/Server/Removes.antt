-- ===== src/Server/Removes.antt =====
-- When a request to remove a program of the list is answered: src/server.c.
use kb_pm.Prelude.{
  ℕ, suc, ◌≡◌, ◌<◌, ◌-◌, ◌+◌, some, get_elem?, get_elem?-set_self, length, pos, ◌++◌, done,
  Bool-cases, inl, inr, is_nonzero, if◌then◌else◌, subst, sym, arith, List, pos_part,
}
use kb_pm.CString.{Str, text}
use kb_pm.System.{Log, Env}
use kb_pm.Proc.Children.{Task, IsSystem}
use kb_pm.Process.{Process, list_size}
use kb_pm.Process.Table.{del_process_by_app_name}
use kb_pm.Machine.{Machine}
use kb_pm.Server.{Server}
use kb_pm.Server.Control.{server_stop_process}
use kb_pm.Server.Requests.{
  on_slot, remove_listed, server_remove_process, server_remove_process_and_get_response,
}
use kb_pm.Server.Spec.{App, app_of, entries, apps, IsSettled, IsGood, IsNumbered, IsValid}
use kb_pm.Server.Entries.{IsSettled-at}
use kb_pm.Server.Contract.{target}
use kb_pm.Server.Deletion.{del_process_by_app_name_lem}
use kb_pm.Server.Resolve.{IsFound, index_from_self}
use kb_pm.Server.Effects.{server_stop_process-idle}
use kb_pm.Server.Invariant.{written, written-IsValid}
use kb_pm.Server.Refine.{get_pos-found}
use kb_pm.Server.Refine.Remove.{stopped_or_idle}
use kb_pm.Server.Returns.{parse-known, on_listed-found, running_pid, server_stop_process-Ends}
use kb_pm.Server.Progress.{Returns}
use kb_pm.Server.Answers.{IsAnswered}

server_stop_process-Returns :
    (env : Env) (tasks : Log → List Task) (height : Log → ℕ → ℕ) (p : Process) (log : Log)
    → IsSystem env tasks height
    → IsSettled (app_of p)
    → height log (pos_part p.pid) < env.depth
    → Returns (server_stop_process env p log)
server_stop_process-Returns env tasks height p log system settled low =
    elim (Bool-cases (is_nonzero p.is_running)) [
      | inr off ↦ (p, log, server_stop_process-idle env p log off)
      | inl on ↦
          let (q, log', e, ends) =
            server_stop_process-Ends env tasks height p log system
              (running_pid (app_of p) settled on) low on in
          (q, log', e)
    ]

-- The program at `i` of a valid service with a slot to spare can be deleted.
deletes :
    (s : Server) (i : ℕ) (q : Process)
    → IsValid s
    → s.process_count < list_size
    → i < s.process_count
    → get_elem? s.slots i ≡ some q
    → (slots' : List Process) × (del_process_by_app_name s.slots q.app_name ≡ done (pos 0, slots'))
deletes s i q valid room lt at =
    let n = s.process_count - 1 in
    let next : s.process_count ≡ suc n = omega (arith, lt) in
    let good = subst (λ k. IsGood (entries k s.slots)) next valid.good in
    let (slots', e, num, erased, len) =
      del_process_by_app_name_lem q.app_name n s.slots (0 + i) valid.sized
        (omega (arith, room, next)) (subst (λ k. IsNumbered 0 k s.slots) next valid.numbered) good
        (index_from_self 0 (suc n) s.slots i q good (omega (arith, lt, next)) at) in
    (slots', e)

module _ (m : Machine) (tasks : Log → List Task) (height : Log → ℕ → ℕ) where
  remove_listed-IsAnswered :
      (s : Server) (buffer : Str) (p : Process)
      → IsValid s
      → s.process_count < list_size
      → IsSystem m.env tasks height
      → height s.log (pos_part p.pid) < m.env.depth
      → IsFound s buffer p
      → IsAnswered (remove_listed m p s)
  unfolding remove_listed server_remove_process on_slot
  remove_listed-IsAnswered s buffer p valid room system low found =
      let settled =
        IsSettled-at s.process_count s.slots found.index p valid.good found.below found.at in
      let (q, log', e) =
        server_stop_process-Returns m.env tasks height p s.log system settled low in
      let (same, settled') = stopped_or_idle m.env p s.log q log' settled e in
      let (valid', swapped) =
        written-IsValid s found.index p q log' valid found.below found.at found.by_name same
          settled' in
      let inside : found.index < length s.slots =
        omega (arith, found.below, valid.sized, valid.counted) in
      let (slots', e') =
        deletes (written s found.index q log') found.index q valid' room found.below
          (get_elem?-set_self s.slots found.index q inside) in
      (
        (if is_nonzero p.is_running
            then text "Stopped And Removed " ++ q.app_name ++ text "."
            else text "Removed " ++ q.app_name ++ text "."),
        record s { slots = slots'; process_count = s.process_count - 1; log = log' },
        rw (get_pos-found s buffer p found) (rw (found.at, on_slot) (rw e (rw e'))),
      )

  -- On a valid service with a slot to spare, and a system that always lists all its processes in
  -- /proc, behind entries whose names begin with no digit, whose processes do not change while
  -- /proc is scanned, have numbers from 1 to 32767, and are at most 4096, whose status files can be
  -- opened, have lines of fewer than 511 bytes and name the parent, and where signals let no tree
  -- of processes grow higher, a request to remove a program of the list returns, if the bound on
  -- the recursion is above the height of the tree of the program's process.
  pub remove_returns :
      (s : Server) (buffer : Str) (a : App)
      → IsValid s
      → s.process_count < list_size
      → IsSystem m.env tasks height
      → height s.log (pos_part a.pid) < m.env.depth
      → target buffer (apps s) ≡ some a
      → IsAnswered (server_remove_process_and_get_response m buffer s)
  unfolding server_remove_process_and_get_response
  remove_returns s buffer a valid room system low meant =
      let (p, found, way) = parse-known m s buffer a valid meant in
      let same : app_of p ≡ a = ground (arith, found.meant) in
      subst IsAnswered (sym (on_listed-found (remove_listed m) m buffer s p way)) (
        remove_listed-IsAnswered s buffer p valid room system
          (subst (λ b. height s.log (pos_part b.pid) < m.env.depth) (sym same) low) found)
