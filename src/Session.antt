-- ===== src/Session.antt =====
-- The tool and the service at the two ends of the socket: src/server.c as the other end of the
-- socket of src/client.c.
pub mod Told
pub mod Tool
pub mod Restart
pub mod NewProgram
use kb_pm.Prelude.{
  ℕ, Bool, true, false, ◌||◌, Option, some, none, List, [], ◌∷◌, if◌then◌else◌, ℤ, Outcome, done,
  exited, replaced, undefined, ◌>>=◌, replicate,
}
use kb_pm.CString.{Str, text, eq_str}
use kb_pm.System.{Log, Event, record_event}
use kb_pm.Process.{buffer_size}
use kb_pm.Machine.{Machine}
use kb_pm.Server.{Server}
use kb_pm.Server.Requests.{Response}
use kb_pm.Server.Wire.{read_into}
use kb_pm.Server.Service.{answer, save_process_list}
use kb_pm.Client.{Terminal}

-- The service between two clients, or with a client that has sent a command to which a second
-- message belongs. A service that has ended takes no client.
pub record Session : Type 0 where
  pub server : Server
  pub buffers : List ℕ × Str
  pub asked : Option Str
  pub alive : Bool

-- The commands that are followed by `pong_and_receive_data`
abbrev pub takes_argument : Str → Bool
takes_argument sig =
    eq_str sig (text "start")
    || eq_str sig (text "stop")
    || eq_str sig (text "restart")
    || eq_str sig (text "remove")

-- One round of the loop of `server_socket_handle_thread_func`, with what is written to the client.
unfoldable pub respond : Machine → Str → Str → Str → List ℕ × Str → Server → Response
respond m config_path first second (buffer, response) s = do
  (response', s') ← answer m (read_into buffer first) second response s
  log' ← save_process_list m config_path s'.slots (record_event s'.log (Event.answered response'))
  done (response', record s' { log = log' })

abbrev pub cleared_buffers : List ℕ × Str
cleared_buffers = (replicate buffer_size 0, [])

-- The session behind a round that has answered.
abbrev pub session_of : Server → Session
session_of s = record { server = s; buffers = cleared_buffers; asked = none; alive = true }

-- What the client reads, and the session behind it.
abbrev pub conclude : Session → Response → Str × Session
conclude p (done (r, s')) = (r, session_of s')
conclude p (exited n w) = ([], record p { alive = false })
conclude p (replaced w) = ([], record p { alive = false })
conclude p (undefined e) = ([], record p { alive = false })

abbrev pub by_asked : Machine → Str → Str → Session → Option Str → Str × Session
by_asked m path message p (some first) =
    conclude p (respond m path first message p.buffers p.server)
by_asked m path message p none =
    if takes_argument message
    then (text "pong", record p { asked = some message })
    else conclude p (respond m path message [] p.buffers p.server)

-- A message is written to the service, and its reply is read: nothing, when the service has ended.
unfoldable pub send_to : Machine → Str → Session → Str → Str × Session
send_to m path p message = if p.alive then by_asked m path message p p.asked else ([], p)

-- The session behind a request of which the argument never came: the response goes to a closed
-- socket, and SIGPIPE, which is not ignored, ends the service before it saves its list.
abbrev pub left_by : Session → Response → Session
left_by p (done (r, s')) = record p { server = s'; asked = none; alive = false }
left_by p (exited n w) = record p { alive = false }
left_by p (replaced w) = record p { alive = false }
left_by p (undefined e) = record p { alive = false }

-- A client goes away: if the service waits for its second message, `read` gives nothing, and the
-- request is carried out with what is left in the buffer.
abbrev pub abandoned : Machine → Session → Option Str → Session
abandoned m p (some first) =
    left_by p (answer m (read_into p.buffers.0 first) [] p.buffers.1 p.server)
abandoned m p none = p

unfoldable pub abandon : Machine → Session → Session
abandon m p = abandoned m p p.asked

abbrev pub if_alive : Session → Option Session
if_alive p = if p.alive then some p else none

-- A client connects when the one before it has gone.
unfoldable pub connect_to : Machine → Session → Option Session
connect_to m p = if_alive (abandon m p)

-- A terminal whose socket leads to the service. Both programs use the same document library.
abbrev pub at_service : Machine → Str → Terminal → Terminal
at_service m path t = record {
  Peer = Session;
  connect = connect_to m;
  send = send_to m path;
  json = m.json;
  fallthrough = m.fallthrough;
  exists = t.exists;
  executable = t.executable;
  cwd = t.cwd;
  time = t.time;
  stack_buffer = t.stack_buffer;
  stack_process = t.stack_process;
  stack_list = t.stack_list;
}
