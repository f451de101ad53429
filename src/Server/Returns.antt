-- ===== src/Server/Returns.antt =====
-- When a request to stop a program of the list returns, and which processes it ends: src/server.c.
use kb_pm.Prelude.{
  ℕ, ◌≡◌, ◌<◌, ◌∙◌, ap, sym, subst, Option-cases, inl, inr, ◌⊎◌, some, List, [], ◌∷◌, ◌++◌, arith,
  ℤ, pos, negsuc, done, Outcome, Bool-cases, is_nonzero, if◌then◌else◌, get_elem?-in, pos_part,
  refl, set, true, false,
}
use kb_pm.CString.{Str, text}
use kb_pm.System.{Log, Env}
use kb_pm.Proc.Children.{Task, IsSystem}
use kb_pm.Process.{Process}
use kb_pm.Process.Family.{Ends, kill_process_by_pid-Ends}
use kb_pm.Process.Kill.{kill_process, kill_process_by_pid}
use kb_pm.Machine.{Machine}
use kb_pm.Server.{Server}
use kb_pm.Server.Lookup.{
  type_app_name, type_id, find_app, get_process_id, copy_slot, parse_process_and_process_type,
}
use kb_pm.Server.Control.{server_stop_process}
use kb_pm.Server.Requests.{
  Response, on_slot, on_position, on_listed, stop_listed, server_stop_process_and_get_response,
}
use kb_pm.Server.Spec.{App, app_of, apps, IsSettled, IsValid}
use kb_pm.Server.Contract.{target}
use kb_pm.Server.Resolve.{
  IsFound, resolved_by_id, resolved_by_name, missed_target, get_process_id-lt,
}
use kb_pm.Server.Refine.{get_pos-found}
use kb_pm.Server.Entries.{index_from-some, IsSettled-at}

-- A request that means a program of the list finds it.
pub parse-known :
    (m : Machine) (s : Server) (buffer : Str) (a : App)
    → IsValid s
    → target buffer (apps s) ≡ some a
    → (p : Process) × IsFound s buffer p
      × ((parse_process_and_process_type m s buffer ≡ done (type_id, p))
          ⊎ (parse_process_and_process_type m s buffer ≡ done (type_app_name, p)))
unfolding parse_process_and_process_type copy_slot
parse-known m s buffer a valid meant = elim (Option-cases (get_process_id s.process_count buffer)) [
  | inr (id, found) ↦
      let lt = get_process_id-lt s.process_count buffer id found in
      let (p, at) = get_elem?-in s.slots id (omega (arith, lt, valid.counted, valid.sized)) in
      (
        p,
        resolved_by_id m s buffer valid id p found at,
        inl (rw (parse_process_and_process_type, found, copy_slot, at)),
      )
  | inl missed ↦ elim (Option-cases (find_app s buffer)) [
    | inr (i, named) ↦
        let (j, q, e, lt, at', same) = index_from-some 0 buffer s.process_count s.slots i named in
        let (p, at) = get_elem?-in s.slots i (omega (arith, lt, e, valid.counted, valid.sized)) in
        (
          p,
          resolved_by_name m s buffer valid i p missed named at,
          inr (rw (parse_process_and_process_type, missed, named, copy_slot, at)),
        )
    | inl unknown ↦ absurd (ground (arith, missed_target m s buffer valid missed unknown))
  ]
]

pos_part-pos : (n : ℤ) → 0 < pos_part n → n ≡ pos (pos_part n)
pos_part-pos (pos n) h = refl
pos_part-pos (negsuc n) h = absurd (omega arith)

-- A program of a valid list that runs has a process.
pub running_pid :
    (a : App) → IsSettled a → is_nonzero a.is_running ≡ true → a.pid ≡ pos (pos_part a.pid)
running_pid a (inl (off, none)) on = absurd (ground arith)
running_pid a (inr (running, some_pid)) on = pos_part-pos a.pid some_pid

module _ (env : Env) (tasks : Log → List Task) (height : Log → ℕ → ℕ) where
  -- A running program is stopped, with all its processes.
  pub server_stop_process-Ends :
      (p : Process) (log : Log)
      → IsSystem env tasks height
      → p.pid ≡ pos (pos_part p.pid)
      → height log (pos_part p.pid) < env.depth
      → is_nonzero p.is_running ≡ true
      → (q : Process) × (log' : Log) × (server_stop_process env p log ≡ done (q, log'))
        × Ends tasks log (pos_part p.pid ∷ []) log'
  unfolding server_stop_process kill_process
  server_stop_process-Ends p log system is_pos low on =
      let (log', e, ends) =
        kill_process_by_pid-Ends env tasks height system env.depth (pos_part p.pid) log low in
      let killed : kill_process_by_pid env.depth env p.pid log ≡ done log' =
        ap (λ n. kill_process_by_pid env.depth env n log) is_pos ∙ e in
      (
        record p { is_running = pos 0; pid = pos 0; start_time = pos 0; restart_times = pos 0 },
        log',
        ground (arith, killed),
        ends,
      )

-- `f` on the slot of the program that is found.
pub on_position-found :
    (f : Process → Log → Outcome Log (Process × Log)) (say : Process → Str) (s : Server)
    (buffer : Str) (p q : Process) (log' : Log)
    → (found : IsFound s buffer p) → f p s.log ≡ done (q, log')
    → on_position f say p s
      ≡ done (say q, record s { slots = set s.slots found.index q; log = log' })
unfolding on_slot
on_position-found f say s buffer p q log' found called =
    rw (get_pos-found s buffer p found) (rw (found.at, on_slot) (rw called))

pub on_listed-found :
    (f : Process → Server → Response) (m : Machine) (buffer : Str) (s : Server) (p : Process)
    → ((parse_process_and_process_type m s buffer ≡ done (type_id, p))
        ⊎ (parse_process_and_process_type m s buffer ≡ done (type_app_name, p)))
    → on_listed f m buffer s ≡ f p s
unfolding on_listed
on_listed-found f m buffer s p (inl by_id) = rw by_id
on_listed-found f m buffer s p (inr by_name) = rw by_name

-- The processes that a stop has to end.
abbrev pub processes_of : App → List ℕ
processes_of a = if is_nonzero a.is_running then pos_part a.pid ∷ [] else []

processes_of-idle : (a : App) → is_nonzero a.is_running ≡ false → processes_of a ≡ []
processes_of-idle a off = rw off

processes_of-running :
    (a : App) → is_nonzero a.is_running ≡ true → processes_of a ≡ pos_part a.pid ∷ []
processes_of-running a on = rw on

module _ (m : Machine) (tasks : Log → List Task) (height : Log → ℕ → ℕ) where
  -- The call returns, and has ended these processes and all their descendants.
  abbrev pub Ended : Server → List ℕ → Response → Type 0
  Ended s pids call =
      (r : Str) × (s' : Server) × (call ≡ done (r, s')) × Ends tasks s.log pids s'.log

  stop_listed-returns :
      (s : Server) (buffer : Str) (p : Process)
      → IsSystem m.env tasks height
      → IsSettled (app_of p)
      → height s.log (pos_part p.pid) < m.env.depth
      → IsFound s buffer p
      → Ended s (processes_of (app_of p)) (stop_listed m p s)
  unfolding stop_listed
  stop_listed-returns s buffer p system settled low found =
      elim (Bool-cases (is_nonzero p.is_running)) [
        | inr off ↦
            subst (λ ps. Ended s ps (stop_listed m p s)) (sym (processes_of-idle (app_of p) off))
              (p.app_name ++ text " is not running.", s, rw off, Ends.nobody)
        | inl on ↦
            let (q, log', e, ends) =
              server_stop_process-Ends m.env tasks height p s.log system
                (running_pid (app_of p) settled on) low on in
            let say : Process → Str = λ q'. text "Stopped " ++ p.app_name ++ text " success." in
            subst (λ ps. Ended s ps (stop_listed m p s)) (sym (processes_of-running (app_of p) on))
              (
                say q,
                record s { slots = set s.slots found.index q; log = log' },
                rw on (on_position-found (server_stop_process m.env) say s buffer p q log' found e),
                ends,
              )
      ]

  -- On a valid service, and a system that always lists all its processes in /proc, behind entries
  -- whose names begin with no digit, whose processes do not change while /proc is scanned, have
  -- numbers from 1 to 32767, and are at most 4096, whose status files can be opened, have lines of
  -- fewer than 511 bytes and name the parent, and where signals let no tree of processes grow
  -- higher, a request to stop a program of the list returns, if the bound on the recursion is above
  -- the height of the tree of the program's process. If the program was running, its process and
  -- all its descendants have been signalled, each before its children, which are those that it had
  -- before its signal, and nothing else has been done but to scan /proc; and if it was not, nothing
  -- has been done.
  pub stop_returns :
      (s : Server) (buffer : Str) (a : App)
      → IsValid s
      → IsSystem m.env tasks height
      → target buffer (apps s) ≡ some a
      → height s.log (pos_part a.pid) < m.env.depth
      → Ended s (processes_of a) (server_stop_process_and_get_response m buffer s)
  unfolding server_stop_process_and_get_response
  stop_returns s buffer a valid system meant low =
      let (p, found, way) = parse-known m s buffer a valid meant in
      let same : app_of p ≡ a = ground (arith, found.meant) in
      let settled =
        IsSettled-at s.process_count s.slots found.index p valid.good found.below found.at in
      let ended =
        stop_listed-returns s buffer p system settled
          (subst (λ b. height s.log (pos_part b.pid) < m.env.depth) (sym same) low) found in
      subst (λ b. Ended s (processes_of b) (on_listed (stop_listed m) m buffer s)) same
        (subst (Ended s (processes_of (app_of p)))
          (sym (on_listed-found (stop_listed m) m buffer s p way)) ended)
