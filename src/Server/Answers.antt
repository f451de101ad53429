-- ===== src/Server/Answers.antt =====
-- When a request to start or restart a program of the list is answered: src/server.c.
use kb_pm.Prelude.{
  ℕ, ◌≡◌, ◌<◌, some, set, suc_ℤ, ◌++◌, done, Outcome, Bool-cases, inl, inr, is_nonzero, true, subst,
  sym, List, arith, pos_part,
}
use kb_pm.CString.{Str, text, show_int}
use kb_pm.System.{Log, Env}
use kb_pm.Proc.Children.{Task, IsSystem}
use kb_pm.Process.{Process}
use kb_pm.Machine.{Machine}
use kb_pm.Server.{Server}
use kb_pm.Server.Control.{server_start_process, server_restart_process}
use kb_pm.Server.Requests.{
  Response, on_position, start_listed, restart_listed, server_start_process_and_get_response,
  server_restart_process_and_get_response,
}
use kb_pm.Server.Spec.{App, app_of, apps, IsSettled, IsValid}
use kb_pm.Server.Contract.{target}
use kb_pm.Server.Entries.{IsSettled-at}
use kb_pm.Server.Resolve.{IsFound}
use kb_pm.Server.Returns.{
  parse-known, on_position-found, on_listed-found, running_pid, server_stop_process-Ends,
}
use kb_pm.Server.Progress.{IsForking, Returns, server_start_process-Returns}

abbrev pub IsAnswered : Response → Type 0
IsAnswered call = (r : Str) × (s' : Server) × (call ≡ done (r, s'))

on_position-IsAnswered :
    (f : Process → Log → Outcome Log (Process × Log)) (say : Process → Str) (s : Server)
    (buffer : Str) (p : Process)
    → IsFound s buffer p
    → Returns (f p s.log)
    → IsAnswered (on_position f say p s)
on_position-IsAnswered f say s buffer p found (q, log', e) = (
  say q,
  record s { slots = set s.slots found.index q; log = log' },
  on_position-found f say s buffer p q log' found e,
)

start_listed-IsAnswered :
    (m : Machine) (s : Server) (buffer : Str) (p : Process)
    → IsForking m.env
    → IsFound s buffer p
    → IsAnswered (start_listed m p s)
unfolding start_listed
start_listed-IsAnswered m s buffer p forking found = elim (Bool-cases (is_nonzero p.is_running)) [
  | inl on ↦ (p.app_name ++ text " have already been running.", s, rw on)
  | inr off ↦ rw off (
      on_position-IsAnswered (server_start_process m.env)
        (λ process'.
          text "Started " ++ p.app_name ++ text " with pid:" ++ show_int process'.pid ++ text ".")
        s buffer p found (server_start_process-Returns m.env p s.log forking))
]

server_restart_process-Returns :
    (env : Env) (tasks : Log → List Task) (height : Log → ℕ → ℕ) (p : Process) (log : Log)
    → IsForking env
    → IsSystem env tasks height
    → IsSettled (app_of p)
    → height log (pos_part p.pid) < env.depth
    → is_nonzero p.is_running ≡ true
    → Returns (server_restart_process env p log)
unfolding server_restart_process
server_restart_process-Returns env tasks height p log forking system settled low on =
    let (q, log1, e1, ends) =
      server_stop_process-Ends env tasks height p log system (running_pid (app_of p) settled on) low
        on in
    let (q', log2, e2) = server_start_process-Returns env q log1 forking in
    (record q' { restart_times = suc_ℤ q'.restart_times }, log2, rw e1 (rw e2))

module _ (m : Machine) (tasks : Log → List Task) (height : Log → ℕ → ℕ) where
  restart_listed-IsAnswered :
      (s : Server) (buffer : Str) (p : Process)
      → IsForking m.env
      → IsSystem m.env tasks height
      → IsSettled (app_of p)
      → height s.log (pos_part p.pid) < m.env.depth
      → IsFound s buffer p
      → IsAnswered (restart_listed m p s)
  unfolding restart_listed
  restart_listed-IsAnswered s buffer p forking system settled low found =
      elim (Bool-cases (is_nonzero p.is_running)) [
        | inr off ↦ (p.app_name ++ text " is not running.", s, rw off)
        | inl on ↦ rw on (
            on_position-IsAnswered (server_restart_process m.env)
              (λ process'.
                text "Restarted "
                ++ p.app_name
                ++ text " with "
                ++ show_int process'.pid
                ++ text ".")
              s buffer p found
              (server_restart_process-Returns m.env tasks height p s.log forking system settled low
                on))
      ]

  -- On a valid service, and a system that always lists all its processes in /proc, behind entries
  -- whose names begin with no digit, whose processes do not change while /proc is scanned, have
  -- numbers from 1 to 32767, and are at most 4096, whose status files can be opened, have lines of
  -- fewer than 511 bytes and name the parent, and where signals let no tree of processes grow
  -- higher, a request to start or to restart a program of the list returns, if `fork` never fails,
  -- and the bound on the recursion is above the height of the tree of the program's process.
  pub requests_return :
      (s : Server) (buffer : Str) (a : App)
      → IsValid s
      → IsForking m.env
      → IsSystem m.env tasks height
      → height s.log (pos_part a.pid) < m.env.depth
      → target buffer (apps s) ≡ some a
      → IsAnswered (server_start_process_and_get_response m buffer s)
        × IsAnswered (server_restart_process_and_get_response m buffer s)
  unfolding server_start_process_and_get_response server_restart_process_and_get_response
  requests_return s buffer a valid forking system low meant =
      let (p, found, way) = parse-known m s buffer a valid meant in
      let same : app_of p ≡ a = ground (arith, found.meant) in
      let low' = subst (λ b. height s.log (pos_part b.pid) < m.env.depth) (sym same) low in
      let settled =
        IsSettled-at s.process_count s.slots found.index p valid.good found.below found.at in
      let start = start_listed-IsAnswered m s buffer p forking found in
      (
        (elim way [ inl by_id ↦ rw by_id start | inr by_name ↦ rw by_name start ]),
        subst IsAnswered (sym (on_listed-found (restart_listed m) m buffer s p way))
            (restart_listed-IsAnswered s buffer p forking system settled low' found),
      )
