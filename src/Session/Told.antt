-- ===== src/Session/Told.antt =====
-- What the tool is told of a request with an argument.
use kb_pm.Prelude.{
  bind_assoc, ◌>>=◌, ℕ, ◌-◌, ◌≡◌, ◌≤◌, ◌<◌, ◌∙◌, refl, sym, ap, subst, true, none, List, [], ◌++◌,
  arith, length, take-all, replicate, pos, done, >>=-eq-done,
}
use kb_pm.CString.{Str, text, eq_str}
use kb_pm.System.{Log, Event, record_event}
use kb_pm.Proc.{str_buffer_size}
use kb_pm.Process.{buffer_size, list_size}
use kb_pm.Machine.{Machine}
use kb_pm.Server.{Server}
use kb_pm.Server.Requests.{
  server_stop_process_and_get_response, server_remove_process_and_get_response,
}
use kb_pm.Server.Wire.{c_string, read_into}
use kb_pm.Server.Wire.Exchange.{IsText, drop-replicate, c_string-text, drop-short, exchange-exact}
use kb_pm.Server.Service.{answer, is_command, save_process_list, serve_client}
use kb_pm.Server.Spec.{App, IsValid, apps}
use kb_pm.Server.Reach.{with_log-IsValid}
use kb_pm.Server.Contract.{stop_spec, remove_spec}
use kb_pm.Server.Refine.Stop.{stop_refines}
use kb_pm.Server.Refine.Remove.{remove_refines}
use kb_pm.Client.{Terminal, receive, communicate_two_signals_with_server}
use kb_pm.Session.{
  Session, takes_argument, respond, cleared_buffers, session_of, send_to, connect_to, abandon,
  at_service,
}

-- A reply goes into a buffer of zeros.
receive-zeros :
    (n : ℕ) (reply : Str)
    → length reply ≤ buffer_size
    → receive (replicate n 0) reply ≡ reply ++ replicate (n - length reply) 0
unfolding receive
receive-zeros n reply h =
    rw (take-all buffer_size reply h) (ap (λ r. reply ++ r) (drop-replicate (length reply) n 0))

-- A reply goes over one that is not longer.
receive-over :
    (k : ℕ) (earlier reply : Str)
    → length reply ≤ buffer_size
    → length earlier ≤ length reply
    → receive (earlier ++ replicate k 0) reply
      ≡ reply ++ replicate (k - (length reply - length earlier)) 0
unfolding receive
receive-over k earlier reply h le =
    rw (take-all buffer_size reply h)
      (ap (λ r. reply ++ r) (drop-short (length reply) earlier k le))

pong-IsText : IsText (text "pong")
pong-IsText = ground arith

pub hear_pong : (n : ℕ) → 4 < n → c_string (receive (replicate n 0) (text "pong")) ≡ text "pong"
hear_pong n room =
    let first = receive-zeros n (text "pong") (omega arith) in
    let first_text : c_string (text "pong" ++ replicate (n - 4) 0) ≡ text "pong" =
      c_string-text (text "pong") (n - 4) pong-IsText (omega (arith, room)) in
    rw first first_text

-- A reply that an array of `n` bytes takes, and that is no shorter than the pong before it.
pub record IsReadable (n : ℕ) (r : Str) : Type 0 where
  pub plain : IsText r
  pub long : 4 ≤ length r
  pub fits : length r ≤ buffer_size
  pub room : length r < n

-- The reply of the service to a request with an argument is read by the tool as it was written: the
-- pong before it leaves no trace.
told_reply :
    (t : Terminal) (m : Machine) (path sig name r : Str) (p : Session) (s' : Server) (n : ℕ)
    → takes_argument sig ≡ true
    → p.alive ≡ true
    → p.asked ≡ none
    → respond m path sig name p.buffers p.server ≡ done (r, s')
    → IsReadable n r
    → (buffer : List ℕ) × (communicate_two_signals_with_server
          (at_service m path t)
          sig
          name
          (replicate n 0)
          p
        ≡ ((pos 0, buffer), session_of s'))
      × (c_string buffer ≡ r)
unfolding communicate_two_signals_with_server send_to connect_to abandon eq_str
told_reply t m path sig name r p s' n argument alive unasked responds readable =
    let long = readable.long in
    let fits = readable.fits in
    let room = readable.room in
    let pong = text "pong" in
    let first = receive-zeros n pong (omega arith) in
    let heard = hear_pong n (omega (arith, long, room)) in
    let second = receive-over (n - 4) pong r fits long in
    (
      receive (receive (replicate n 0) pong) r,
      rw (unasked, alive, argument, heard, responds),
      rw first (rw second (c_string-text r _ readable.plain (omega (arith, long, room)))),
    )

module _ (m : Machine) (name : Str) (n : ℕ) (plain : IsText name)
    (fits : length name ≤ str_buffer_size) (big : str_buffer_size < n) where
  -- The service reads both messages as they were written.
  answer_stop :
      (response : Str) (s : Server)
      → answer m (read_into (replicate n 0) (text "stop")) name response s
        ≡ server_stop_process_and_get_response m name s
  unfolding answer is_command eq_str
  answer_stop response s =
      let exact = exchange-exact (text "stop") name n (ground arith) plain (omega arith) fits big in
      rw (exact.0, exact.1)

  answer_remove :
      (response : Str) (s : Server)
      → answer m (read_into (replicate n 0) (text "remove")) name response s
        ≡ server_remove_process_and_get_response m name s
  unfolding answer is_command eq_str
  answer_remove response s =
      let exact =
        exchange-exact (text "remove") name n (ground arith) plain (omega arith) fits big in
      rw (exact.0, exact.1)

-- The round is one of `serve_client`, which keeps what is written to itself.
serve_client-respond :
    (m : Machine) (path first second : Str) (before : List ℕ × Str) (s : Server)
    → serve_client m path first second before s
      ≡ (respond m path first second before s >>= λ a. done (cleared_buffers, a.1))
unfolding serve_client respond
serve_client-respond m path first second before s = sym (
    bind_assoc {B = Str × Server} (answer m (read_into before.0 first) second before.1 s) _ _
    ∙ (λ i. answer m (read_into before.0 first) second before.1 s >>= λ a.
        bind_assoc {B = Str × Server}
          (save_process_list m path a.1.slots (record_event a.1.log (Event.answered a.0)))
          (λ log'. done (a.0, record a.1 { log = log' })) (λ b. done (cleared_buffers, b.1)) i))

-- A round that answers: the request is answered, and the list is saved.
pub respond-done :
    (m : Machine) (path first second : Str) (before : List ℕ × Str) (s : Server) (r : Str)
    (s' : Server)
    → respond m path first second before s ≡ done (r, s')
    → (s1 : Server) × (log' : Log) × (answer m (read_into before.0 first) second before.1 s
        ≡ done (r, s1))
      × (record s1 { log = log' } ≡ s')
unfolding respond
respond-done m path first second before s r s' h =
    let (a, e, h1) = >>=-eq-done (answer m (read_into before.0 first) second before.1 s) _ h in
    let (log', e1, h2) =
      >>=-eq-done (save_process_list m path a.1.slots (record_event a.1.log (Event.answered a.0))) _
        h1 in
    let same : a.0 ≡ r = ground arith in
    let ended : record a.1 { log = log' } ≡ s' = ground arith in
    (a.1, log', e ∙ ap (λ w. done (w, a.1)) same, ended)

-- A service that is well and waits for a client.
pub record IsWaiting (p : Session) : Type 0 where
  pub alive : p.alive ≡ true
  pub asked : p.asked ≡ none
  pub buffers : p.buffers ≡ cleared_buffers
  pub valid : IsValid p.server

-- The tool has asked, and it reads the response `r`, which is with what has become of the programs as `spec` says.
abbrev pub IsTold :
    (t : Terminal) (m : Machine) (path sig name : Str) (n : ℕ) (p : Session) (s' : Server) (r : Str)
    → Str × List App
    → Type 0
IsTold t m path sig name n p s' r spec =
    (buffer : List ℕ) × (communicate_two_signals_with_server (at_service m path t) sig name
        (replicate n 0) p
      ≡ ((pos 0, buffer), session_of s'))
    × (c_string buffer ≡ r)
    × ((r, apps s') ≡ spec)
    × IsWaiting (session_of s')

-- An answer that is as `spec` says is told.
pub IsTold-by :
    (t : Terminal) (m : Machine) (path sig name r : Str) (p : Session) (s' : Server) (n : ℕ)
    (spec : Str × List App)
    → takes_argument sig ≡ true
    → IsWaiting p
    → respond m path sig name cleared_buffers p.server ≡ done (r, s')
    → IsReadable n r
    → ((s1 : Server)
        → answer m (read_into (replicate buffer_size 0) sig) name [] p.server ≡ done (r, s1)
        → IsValid s1 × ((r, apps s1) ≡ spec))
    → IsTold t m path sig name n p s' r spec
IsTold-by t m path sig name r p s' n spec argument waiting responds readable refines =
    let (s1, log', e, ended) =
      respond-done m path sig name cleared_buffers p.server r s' responds in
    let (valid, told) = refines s1 e in
    let here =
      subst (λ b. respond m path sig name b p.server ≡ done (r, s')) (sym waiting.buffers)
        responds in
    let (buffer, exchanged, heard) =
      told_reply t m path sig name r p s' n argument waiting.alive waiting.asked here readable in
    (
      buffer,
      exchanged,
      heard,
      rw (sym ended) told,
      record {
        alive = refl;
        asked = refl;
        buffers = refl;
        valid = subst IsValid ended (with_log-IsValid s1 log' valid);
      },
    )

-- The tool asks a waiting service to stop a program, by its name or its id. If the service answers,
-- and the tool's array takes the answer, then the tool reads the response of the contract for the
-- programs of the service, and the service waits again, with the programs of the contract.
pub stop-IsTold :
    (t : Terminal) (m : Machine) (path name r : Str) (p : Session) (s' : Server) (n : ℕ)
    → IsWaiting p
    → IsText name
    → length name ≤ str_buffer_size
    → respond m path (text "stop") name cleared_buffers p.server ≡ done (r, s')
    → IsReadable n r
    → IsTold t m path (text "stop") name n p s' r (stop_spec name (apps p.server))
unfolding eq_str
stop-IsTold t m path name r p s' n waiting plain fits responds readable =
    IsTold-by t m path (text "stop") name r p s' n (stop_spec name (apps p.server)) refl waiting
      responds readable
      (λ s1 e.
        stop_refines m name p.server r s1 waiting.valid
          (sym (answer_stop m name buffer_size plain fits (omega arith) [] p.server) ∙ e))

-- The tool asks a waiting service with a slot to spare to remove a program, by its name or its id. If
-- the service answers, and the tool's array takes the answer, then the tool reads the response of the
-- contract, and the service waits again, with the programs of the contract.
pub remove-IsTold :
    (t : Terminal) (m : Machine) (path name r : Str) (p : Session) (s' : Server) (n : ℕ)
    → IsWaiting p
    → p.server.process_count < list_size
    → IsText name
    → length name ≤ str_buffer_size
    → respond m path (text "remove") name cleared_buffers p.server ≡ done (r, s')
    → IsReadable n r
    → IsTold t m path (text "remove") name n p s' r (remove_spec name (apps p.server))
unfolding eq_str
remove-IsTold t m path name r p s' n waiting spare plain fits responds readable =
    IsTold-by t m path (text "remove") name r p s' n (remove_spec name (apps p.server)) refl waiting
      responds readable
      (λ s1 e.
        remove_refines m name p.server r s1 waiting.valid spare
          (sym (answer_remove m name buffer_size plain fits (omega arith) [] p.server) ∙ e))
