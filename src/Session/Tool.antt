-- ===== src/Session/Tool.antt =====
-- A whole command of the tool, over the service that it asks.
use kb_pm.Prelude.{
  ℕ, ◌≡◌, ◌≤◌, ◌<◌, ◌∙◌, refl, sym, ap, subst, List, [], ◌∷◌, ◌++◌, arith, length, replicate, pos,
  done,
}
use kb_pm.CString.{Str, text, eq_str}
use kb_pm.Proc.{str_buffer_size}
use kb_pm.Process.{buffer_size, list_size}
use kb_pm.Machine.{Machine}
use kb_pm.Server.{Server}
use kb_pm.Server.Wire.{read_into}
use kb_pm.Server.Wire.Exchange.{IsText, exchange-exact}
use kb_pm.Server.Service.{answer, is_command}
use kb_pm.Server.Spec.{App, IsValid, apps}
use kb_pm.Server.Contract.{stop_spec, remove_spec}
use kb_pm.Server.Reach.{with_log-IsValid}
use kb_pm.Client.{
  Terminal, Exit, said, app_label, communicate_with_server, communicate_two_signals_with_server,
  ping_server, when_online, unless_error, report, show_status, ask_about, stop_process,
  remove_process, Run,
}
use kb_pm.Session.{
  Session, respond, cleared_buffers, session_of, send_to, connect_to, abandon, at_service,
}
use kb_pm.Session.Told.{
  IsReadable, IsWaiting, IsTold, hear_pong, respond-done, stop-IsTold, remove-IsTold,
}

-- The service answers a ping with a pong, and goes on as it was.
answer_ping :
    (m : Machine) (n : ℕ) (s : Server)
    → str_buffer_size < n
    → answer m (read_into (replicate n 0) (text "ping")) [] [] s ≡ done (text "pong", s)
unfolding answer is_command eq_str
answer_ping m n s big =
    let exact =
      exchange-exact (text "ping") [] n (ground arith) tt (omega arith) (omega arith) big in
    rw (exact.0)

module _ (t : Terminal) (m : Machine) (path : Str) (n : ℕ) (zeros : t.stack_buffer ≡ replicate n 0)
    (room : 4 < n) where
  pub ping_online :
      (p : Session) (r : Str) (s' : Server)
      → IsWaiting p
      → respond m path (text "ping") [] cleared_buffers p.server ≡ done (r, s')
      → IsWaiting (session_of s')
        × (apps s' ≡ apps p.server)
        × (ping_server (at_service m path t) p ≡ (pos 0, session_of s'))
  unfolding ping_server communicate_with_server send_to connect_to abandon eq_str
  ping_online p r s' waiting responds =
      let (s1, log', e, ended) =
        respond-done m path (text "ping") [] cleared_buffers p.server r s' responds in
      let e' = sym (answer_ping m buffer_size p.server (omega arith)) ∙ e in
      let said : text "pong" ≡ r = ground arith in
      let same : p.server ≡ s1 = ground arith in
      let here : respond m path (text "ping") [] p.buffers p.server ≡ done (text "pong", s') =
        subst (λ b. respond m path (text "ping") [] b p.server ≡ done (text "pong", s'))
          (sym waiting.buffers) (responds ∙ ap (λ w. done (w, s')) (sym said)) in
      let after : record p.server { log = log' } ≡ s' =
        subst (λ x. record x { log = log' } ≡ s') (sym same) ended in
      (
        record {
          alive = refl;
          asked = refl;
          buffers = refl;
          valid = subst IsValid after (with_log-IsValid p.server log' waiting.valid);
        },
        ap apps (sym after),
        rw (zeros, waiting.asked, waiting.alive, here, hear_pong n room),
      )

  -- A command with an argument, when the ping is answered and the status is shown behind it.
  pub command_seen :
      (sig name r : Str) (p : Session) (s0 s' : Server) (e : Exit Session) (spec : Str × List App)
      → ping_server (at_service m path t) p ≡ (pos 0, session_of s0)
      → IsTold t m path sig name n (session_of s0) s' r spec
      → show_status (at_service m path t) (session_of s') ≡ done e
      → ask_about (at_service m path t) sig name p
        ≡ done (record e { output = said (app_label ++ text ": " ++ r ++ 0x0a ∷ []) ∷ e.output })
  unfolding ask_about when_online unless_error report
  command_seen sig name r p s0 s' e spec online (buffer, exchanged, heard, told, waiting') shows =
      let asked : communicate_two_signals_with_server (at_service m path t) sig name t.stack_buffer
            (session_of s0)
          ≡ ((pos 0, buffer), session_of s') =
        subst
          (λ b.
            communicate_two_signals_with_server (at_service m path t) sig name b (session_of s0)
            ≡ ((pos 0, buffer), session_of s'))
          (sym zeros) exchanged in
      rw (online, asked, shows, heard)

  -- What the user sees of a command, and what has become of the programs.
  abbrev pub IsSeen :
      (run : Run (at_service m path t)) (e : Exit Session) (r : Str) (s' : Server)
      → Str × List App
      → Type 0
  IsSeen run e r s' spec =
      (run
        ≡ done (record e { output = said (app_label ++ text ": " ++ r ++ 0x0a ∷ []) ∷ e.output }))
      × ((r, apps s') ≡ spec)

  -- `kbpm stop` of an argument that is a text of at most 512 bytes, by a tool whose array for
  -- replies holds zeros before it is used. A waiting service answers the ping, and the request with
  -- a text of at least four bytes that the array takes. If the status that the tool asks for
  -- afterwards is shown, the tool exits as it does behind the status, and what the user sees first
  -- is the response of the contract for the programs of the service, which have become those of the
  -- contract.
  pub stop-IsSeen :
      (name r0 r : Str) (p : Session) (s0 s' : Server) (e : Exit Session)
      → IsWaiting p
      → IsText name
      → length name ≤ str_buffer_size
      → respond m path (text "ping") [] cleared_buffers p.server ≡ done (r0, s0)
      → respond m path (text "stop") name cleared_buffers s0 ≡ done (r, s')
      → IsReadable n r
      → show_status (at_service m path t) (session_of s') ≡ done e
      → IsSeen (stop_process (at_service m path t) name p) e r s' (stop_spec name (apps p.server))
  stop-IsSeen name r0 r p s0 s' e waiting plain fits pings responds readable shows =
      let (waiting0, kept, online) = ping_online p r0 s0 waiting pings in
      let told =
        stop-IsTold t m path name r (session_of s0) s' n waiting0 plain fits responds readable in
      (
        command_seen (text "stop") name r p s0 s' e _ online told shows,
        told.3 ∙ ap (stop_spec name) kept,
      )

  -- `kbpm remove` of an argument that is a text of at most 512 bytes, by a tool whose array for
  -- replies holds zeros before it is used. A waiting service, which has a slot to spare after the
  -- ping, answers the ping, and the request with a text of at least four bytes that the array
  -- takes. If the status that the tool asks for afterwards is shown, the tool exits as it does
  -- behind the status, and what the user sees first is the response of the contract for the
  -- programs of the service, which have become those of the contract.
  pub remove-IsSeen :
      (name r0 r : Str) (p : Session) (s0 s' : Server) (e : Exit Session)
      → IsWaiting p
      → s0.process_count < list_size
      → IsText name
      → length name ≤ str_buffer_size
      → respond m path (text "ping") [] cleared_buffers p.server ≡ done (r0, s0)
      → respond m path (text "remove") name cleared_buffers s0 ≡ done (r, s')
      → IsReadable n r
      → show_status (at_service m path t) (session_of s') ≡ done e
      → IsSeen
          (remove_process (at_service m path t) name p)
          e
          r
          s'
          (remove_spec name (apps p.server))
  remove-IsSeen name r0 r p s0 s' e waiting spare plain fits pings responds readable shows =
      let (waiting0, kept, online) = ping_online p r0 s0 waiting pings in
      let told =
        remove-IsTold t m path name r (session_of s0) s' n waiting0 spare plain fits responds
          readable in
      (
        command_seen (text "remove") name r p s0 s' e _ online told shows,
        told.3 ∙ ap (remove_spec name) kept,
      )
