-- ===== src/Server/Refine/Stop.antt =====
-- `kbpm stop`
use kb_pm.Prelude.{◌≡◌, sym, subst, ◌++◌, inl, inr, Bool-cases, arith, done, is_nonzero}
use kb_pm.CString.{Str, text}
use kb_pm.Process.{Process}
use kb_pm.Machine.{Machine}
use kb_pm.Server.{Server}
use kb_pm.Server.Control.{server_stop_process}
use kb_pm.Server.Requests.{stop_listed, server_stop_process_and_get_response}
use kb_pm.Server.Spec.{app_of, apps, IsSettled, IsValid}
use kb_pm.Server.Contract.{stop_spec}
use kb_pm.Server.Resolve.{IsFound}
use kb_pm.Server.Effects.{server_stop_process-done, app_of-halt}
use kb_pm.Server.Refine.{on_listed-done, on_found-done}

module _ (m : Machine) (buffer : Str) (s : Server) (r : Str) (s' : Server) (valid : IsValid s) where
  stop_listed-lem :
      (p : Process)
      → IsFound s buffer p
      → stop_listed m p s ≡ done (r, s')
      → IsValid s' × ((r, apps s') ≡ stop_spec buffer (apps s))
  unfolding stop_listed
  stop_listed-lem p found h = elim (Bool-cases (is_nonzero p.is_running)) [
    | inl on ↦
        let (q, log', called, said, w) =
          on_found-done (server_stop_process m.env)
            (λ q. text "Stopped " ++ p.app_name ++ text " success.") s buffer p r s' valid found
            (rw on at h) in
        let stopped = server_stop_process-done m.env p s.log q log' on called in
        let same = stopped.same in
        let settled : IsSettled (app_of q) = inl (stopped.running, stopped.pid) in
        (w.valid same settled, ground (arith, w.swapped same settled, app_of-halt p q stopped))
    | inr off ↦ ground arith
  ]

  -- On a valid service, a stop that returns leaves a valid service, and the response and the list
  -- are those of the contract: an unknown program is reported, one that is not running too, and a
  -- running one is halted; nothing else changes.
  pub stop_refines :
      server_stop_process_and_get_response m buffer s ≡ done (r, s')
      → IsValid s' × ((r, apps s') ≡ stop_spec buffer (apps s))
  unfolding server_stop_process_and_get_response
  stop_refines h = elim (on_listed-done (stop_listed m) m buffer s r s' valid h) [
    | inl (unknown, said, same) ↦ (subst IsValid (sym same) valid, ground arith)
    | inr (p, found, e) ↦ stop_listed-lem p found e
  ]
