-- ===== src/Server/Refine/Restart.antt =====
-- `kbpm restart`
use kb_pm.Prelude.{◌≡◌, sym, subst, ◌++◌, inl, inr, Bool-cases, arith, done, is_nonzero, pos}
use kb_pm.CString.{Str, text, show_int}
use kb_pm.System.{Log}
use kb_pm.Process.{Process}
use kb_pm.Machine.{Machine}
use kb_pm.Server.{Server}
use kb_pm.Server.Control.{server_restart_process}
use kb_pm.Server.Requests.{restart_listed, server_restart_process_and_get_response}
use kb_pm.Server.Spec.{apps, IsValid}
use kb_pm.Server.Contract.{restart_spec}
use kb_pm.Server.Resolve.{IsFound}
use kb_pm.Server.Effects.{
  time_after_fork, server_restart_process-done, app_of-begin, IsSettled-of_started,
}
use kb_pm.Server.Refine.{on_listed-done, on_found-done}

module _ (m : Machine) (buffer : Str) (s : Server) (r : Str) (s' : Server) (valid : IsValid s) where
  restart_listed-lem :
      (p : Process)
      → IsFound s buffer p
      → restart_listed m p s ≡ done (r, s')
      → (log : Log) × IsValid s'
        × ((r, apps s') ≡ restart_spec (m.env.fork log) (time_after_fork m.env log) buffer (apps s))
  unfolding restart_listed
  restart_listed-lem p found h = elim (Bool-cases (is_nonzero p.is_running)) [
    | inl on ↦
        let (q, log', called, said, w) =
          on_found-done (server_restart_process m.env)
            (λ q. text "Restarted " ++ p.app_name ++ text " with " ++ show_int q.pid ++ text ".") s
            buffer p r s' valid found (rw on at h) in
        let (log, started) = server_restart_process-done m.env p s.log q log' on called in
        let settled = IsSettled-of_started m.env log p q (pos 1) started in
        (
          log,
          w.valid started.same settled,
          ground
              (arith, w.swapped started.same settled, app_of-begin m.env log p q (pos 1) started),
        )
    | inr off ↦ (s.log, ground arith, ground arith)
  ]

  -- On a valid service, a restart that returns leaves a valid service, and the response and the
  -- list are those of the contract for the process that was forked and the time then: an unknown
  -- program is reported, one that is not running too, and a running one runs anew with its count
  -- of restarts at 1; nothing else changes.
  pub restart_refines :
      server_restart_process_and_get_response m buffer s ≡ done (r, s')
      → (log : Log) × IsValid s'
        × ((r, apps s') ≡ restart_spec (m.env.fork log) (time_after_fork m.env log) buffer (apps s))
  unfolding server_restart_process_and_get_response
  restart_refines h = elim (on_listed-done (restart_listed m) m buffer s r s' valid h) [
    | inl (unknown, said, same) ↦ (s.log, subst IsValid (sym same) valid, ground arith)
    | inr (p, found, e) ↦ restart_listed-lem p found e
  ]
