-- ===== src/Client.antt =====
-- src/client.c: what the command line tool asks of the service.
pub mod NewProgram
use kb_pm.Prelude.{
  ℕ, zero, suc, ◌-◌, Bool, true, Option, none, some, List, [], ◌∷◌, ◌++◌, if◌then◌else◌, length,
  ltb, take, drop, get_elem?, ℤ, pos, negsuc, eq_ℤ, is_nonzero, Outcome, done, undefined, Fault,
  ◌>>=◌,
}
use kb_pm.CString.{Str, text, eq_str, strcpy}
use kb_pm.System.{Log}
use kb_pm.Proc.{str_buffer_size}
use kb_pm.Process.{Process, list_size, buffer_size}
use kb_pm.Process.Document.{CJson}
use kb_pm.Process.Json.{create_process_json_str, parse_process_list_with_status}
use kb_pm.Utils.{str_split}
use kb_pm.StatusTable.{print_process_list_box}
use kb_pm.Server.Wire.{c_string}
use kb_pm.Server.Control.{exit_success, exit_failure}

-- What the client runs on: the other end of the socket, with a state of its own, the files, and what
-- C leaves open.
pub record Terminal : Type 1 where
  pub Peer : Type 0
  -- `connect`, which may be refused
  pub connect : Peer → Option Peer
  -- a message is written, and the reply to it is read
  pub send : Peer → Str → Str × Peer
  pub json : CJson
  pub fallthrough : Process → ℤ
  -- `access(path, F_OK)` and `access(path, X_OK)`
  pub exists : Str → Bool
  pub executable : Str → Bool
  -- the working directory
  pub cwd : Str
  -- the answers of the clock, for each row of the table
  pub time : ℕ → ℤ
  -- what local variables hold before they are written
  pub stack_buffer : List ℕ
  pub stack_process : Process
  pub stack_list : List Process

-- What the user sees.
pub data Output : Type 0 where
  -- on the standard output
  said : Str → Output
  -- on the standard error
  complained : Str → Output

-- How the tool exits.
pub record Exit (S : Type 0) : Type 0 where
  pub status : ℕ
  pub output : List Output
  pub peer : S

-- APP_NAME, in green
abbrev pub app_label : Str
app_label = 0x1b ∷ text "[32m[KB_PM]" ++ 0x1b ∷ text "[0m"

-- `fprintf(stderr, APP_NAME ": Server is not online.\n" ...)`, with the last part in italics.
abbrev pub not_online : Output
not_online = complained (
    app_label
    ++ text ": Server is not online."
    ++ 0x0a ∷ 0x1b ∷ text "[3m"
    ++ text " Use `kbpm service start` to start the KB_PM service"
    ++ 0x0a ∷ 0x1b ∷ text "[0m")

abbrev pub server_err : Output
server_err = complained (app_label ++ text ": Server error occur." ++ 0x0a ∷ [])

abbrev pub answered_with : List ℕ → Output
answered_with buffer = said (app_label ++ text ": " ++ c_string buffer ++ 0x0a ∷ [])

-- `read(sockfd, buffer, BUFFER_SIZE)`: no zero is put behind the reply.
unfoldable pub receive : List ℕ → Str → List ℕ
receive buffer reply = let got = take buffer_size reply in got ++ drop (length got) buffer

module _ (t : Terminal) where
  open t use {Peer, connect, send, stack_buffer, stack_process, stack_list}

  -- The value of `*res` and the buffer.
  unfoldable pub communicate_with_server : Str → List ℕ → Peer → (ℤ × List ℕ) × Peer
  communicate_with_server sig buffer peer = elim (connect peer) [
    | none ↦ ((negsuc 0, buffer), peer)
    | some peer1 ↦ ((pos 0, receive buffer (send peer1 sig).0), (send peer1 sig).1)
  ]

  unfoldable pub communicate_two_signals_with_server :
      Str → Str → List ℕ → Peer → (ℤ × List ℕ) × Peer
  communicate_two_signals_with_server sig1 sig2 buffer peer = elim (connect peer) [
    | none ↦ ((negsuc 0, buffer), peer)
    | some peer1 ↦
        let (reply, peer2) = send peer1 sig1 in
        let buffer1 = receive buffer reply in
        if eq_str (c_string buffer1) (text "pong")
        then ((pos 0, receive buffer1 (send peer2 sig2).0), (send peer2 sig2).1)
        else ((negsuc 0, buffer1), peer2)
  ]

  unfoldable pub ping_server : Peer → ℤ × Peer
  ping_server peer =
      let ((res, buffer), peer1) = communicate_with_server (text "ping") stack_buffer peer in
      if eq_ℤ res (negsuc 0)
      then (negsuc 0, peer1)
      else if eq_str (c_string buffer) (text "pong")
      then (pos 0, peer1)
      else (negsuc 0, peer1)

  abbrev pub Run : Type 0
  Run = Outcome Log (Exit Peer)

  -- `ping_server(&res); if(res != 0) { PRINT_NOT_ONLINE; exit(EXIT_FAILURE); }`
  unfoldable pub when_online : (Peer → Run) → Peer → Run
  when_online next peer =
      let (res, peer1) = ping_server peer in
      if is_nonzero res
      then done (record { status = exit_failure; output = not_online ∷ []; peer = peer1 })
      else next peer1

  -- `if(res != 0) { PRINT_SERVER_ERR; exit(EXIT_FAILURE); }`, and else the buffer is used.
  unfoldable pub unless_error : (List ℕ → Peer → Run) → (ℤ × List ℕ) × Peer → Run
  unless_error next ((res, buffer), peer) =
      if is_nonzero res
      then done (record { status = exit_failure; output = server_err ∷ []; peer = peer })
      else next buffer peer

  unfoldable pub show_status : Peer → Run
  show_status = when_online λ peer.
      unless_error
        (λ buffer peer1.
          parse_process_list_with_status t.json t.fallthrough stack_list (c_string buffer)
          >>= λ (count, slots). print_process_list_box t.time slots count >>= λ box.
              done (record { status = exit_success; output = said box ∷ []; peer = peer1 }))
        (communicate_with_server (text "status") stack_buffer peer)

  -- `printf(APP_NAME ": %s\n", buffer); show_status();`
  unfoldable pub report : List ℕ → Peer → Run
  report buffer peer =
      show_status peer >>= λ e. done (record e { output = answered_with buffer ∷ e.output })

  -- `start_all` and `stop_all` differ in the signal only.
  unfoldable pub ask_all : Str → Peer → Run
  ask_all sig =
      when_online λ peer. unless_error report (communicate_with_server sig stack_buffer peer)

  abbrev pub start_all : Peer → Run
  start_all = ask_all (text "startall")

  abbrev pub stop_all : Peer → Run
  stop_all = ask_all (text "stopall")

  -- `restart_process`, `stop_process` and `remove_process` differ in the signal only.
  unfoldable pub ask_about : Str → Str → Peer → Run
  ask_about sig app_name = when_online λ peer.
      unless_error report (communicate_two_signals_with_server sig app_name stack_buffer peer)

  abbrev pub restart_process : Str → Peer → Run
  restart_process = ask_about (text "restart")

  abbrev pub stop_process : Str → Peer → Run
  stop_process = ask_about (text "stop")

  abbrev pub remove_process : Str → Peer → Run
  remove_process = ask_about (text "remove")

  -- `dst[size - 1]`, with `size` strings in `dst`.
  unfoldable pub last_part : List Str → Outcome Log Str
  last_part dst = elim (get_elem? dst (length dst - 1)) [
    | none ↦ undefined Fault.out_of_bounds
    | some part ↦ done part
  ]

  -- The record of the new program. The fields that are not set stay what they were, and so does the
  -- directory when `getcwd` fails because its path is too long.
  unfoldable pub new_process : Str → Outcome Log Process
  new_process cmd = do
    cmd_copy ← strcpy str_buffer_size cmd
    dst ← str_split str_buffer_size list_size cmd_copy (text "/")
    app_name ← last_part dst >>= strcpy str_buffer_size
    cmd' ← strcpy str_buffer_size cmd
    let got_cwd = if ltb (length t.cwd) str_buffer_size then t.cwd else stack_process.dir
    done (record stack_process {
      app_name = app_name;
      dir = got_cwd;
      cmd = cmd';
      is_running = pos 1;
    })

  unfoldable pub start_process : Str → Peer → Run
  start_process app_name_or_cmd = when_online λ peer.
      let listed =
        unless_error report
          (communicate_two_signals_with_server (text "start") app_name_or_cmd stack_buffer peer) in
      let new = do
        process ← new_process app_name_or_cmd
        (res, sig) ← create_process_json_str t.json process (c_string stack_buffer)
        unless_error report
            (communicate_two_signals_with_server (text "start") sig stack_buffer peer)
      in let refused = done (record {
        status = exit_failure;
        output =
            complained (
              app_label ++ text ": " ++ app_name_or_cmd ++ text " cannot be executed." ++ 0x0a ∷ [])
            ∷ [];
        peer = peer;
      }) in
        if t.exists app_name_or_cmd
        then if t.executable app_name_or_cmd then new else refused
        else listed
