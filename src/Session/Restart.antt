-- ===== src/Session/Restart.antt =====
-- `kbpm restart`, over the service.
use kb_pm.Prelude.{ℕ, ◌≡◌, ◌≤◌, ◌<◌, ◌∙◌, refl, sym, ap, subst, [], arith, length, replicate, done}
use kb_pm.CString.{Str, text, eq_str}
use kb_pm.System.{Log}
use kb_pm.Proc.{str_buffer_size}
use kb_pm.Process.{buffer_size}
use kb_pm.Machine.{Machine}
use kb_pm.Server.{Server}
use kb_pm.Server.Requests.{server_restart_process_and_get_response}
use kb_pm.Server.Wire.{read_into}
use kb_pm.Server.Wire.Exchange.{IsText, exchange-exact}
use kb_pm.Server.Service.{answer, is_command}
use kb_pm.Server.Spec.{IsValid, apps}
use kb_pm.Server.Contract.{restart_spec}
use kb_pm.Server.Effects.{time_after_fork}
use kb_pm.Server.Refine.Restart.{restart_refines}
use kb_pm.Client.{Terminal, Exit, show_status, restart_process}
use kb_pm.Session.{Session, respond, cleared_buffers, session_of, at_service}
use kb_pm.Session.Told.{IsReadable, IsWaiting, IsTold, IsTold-by, respond-done}
use kb_pm.Session.Tool.{IsSeen, ping_online, command_seen}

-- The service reads both messages as they were written.
answer_restart :
    (m : Machine) (name response : Str) (n : ℕ) (s : Server)
    → IsText name
    → length name ≤ str_buffer_size
    → str_buffer_size < n
    → answer m (read_into (replicate n 0) (text "restart")) name response s
      ≡ server_restart_process_and_get_response m name s
unfolding answer is_command eq_str
answer_restart m name response n s plain fits big =
    let exact =
      exchange-exact (text "restart") name n (ground arith) plain (omega arith) fits big in
    rw (exact.0, exact.1)

-- What the tool is told of a restart, for the process that was forked.
restart-IsTold :
    (t : Terminal) (m : Machine) (path name r : Str) (p : Session) (s' : Server) (n : ℕ)
    → IsWaiting p
    → IsText name
    → length name ≤ str_buffer_size
    → respond m path (text "restart") name cleared_buffers p.server ≡ done (r, s')
    → IsReadable n r
    → (log : Log) × IsTold t m path
        (text "restart")
        name
        n
        p
        s'
        r
        (restart_spec (m.env.fork log) (time_after_fork m.env log) name (apps p.server))
unfolding eq_str
restart-IsTold t m path name r p s' n waiting plain fits responds readable =
    let (s1, log', e, ended) =
      respond-done m path (text "restart") name cleared_buffers p.server r s' responds in
    let reads = sym (answer_restart m name [] buffer_size p.server plain fits (omega arith)) in
    let (log, valid, out) = restart_refines m name p.server r s1 waiting.valid (reads ∙ e) in
    (
      log,
      IsTold-by t m path (text "restart") name r p s' n _ refl waiting responds readable (λ s2 e2.
          (let same : s1 ≡ s2 = ground arith in
            subst
              (λ x.
                IsValid x
                × ((r, apps x)
                    ≡ restart_spec (m.env.fork log) (time_after_fork m.env log) name
                        (apps p.server)))
              same (valid, out))),
    )

-- `kbpm restart` of an argument that is a text of at most 512 bytes, by a tool whose array for
-- replies holds zeros before it is used. A waiting service answers the ping, and the request with a
-- text of at least four bytes that the array takes. If the status that the tool asks for afterwards
-- is shown, the tool exits as it does behind the status, and what the user sees first is the
-- response of the contract, for the process that was forked and the time then; and the programs of
-- the service have become those of the contract.
pub restart-IsSeen :
    (t : Terminal) (m : Machine) (path : Str) (n : ℕ) (zeros : t.stack_buffer ≡ replicate n 0)
    (room : 4 < n) (name r0 r : Str) (p : Session) (s0 s' : Server) (e : Exit Session)
    → IsWaiting p
    → IsText name
    → length name ≤ str_buffer_size
    → respond m path (text "ping") [] cleared_buffers p.server ≡ done (r0, s0)
    → respond m path (text "restart") name cleared_buffers s0 ≡ done (r, s')
    → IsReadable n r
    → show_status (at_service m path t) (session_of s') ≡ done e
    → (log : Log) × IsSeen t m path n zeros room
        (restart_process (at_service m path t) name p)
        e
        r
        s'
        (restart_spec (m.env.fork log) (time_after_fork m.env log) name (apps p.server))
restart-IsSeen t m path n zeros room name r0 r p s0 s' e waiting plain fits pings responds readable
      shows =
    let (waiting0, kept, online) = ping_online t m path n zeros room p r0 s0 waiting pings in
    let (log, told) =
      restart-IsTold t m path name r (session_of s0) s' n waiting0 plain fits responds readable in
    (
      log,
      (
        command_seen t m path n zeros room (text "restart") name r p s0 s' e _ online told shows,
        told.3 ∙ ap (restart_spec (m.env.fork log) (time_after_fork m.env log) name) kept,
      ),
    )
