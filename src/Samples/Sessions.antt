-- ===== src/Samples/Sessions.antt =====
-- The client of the samples asks the service of the samples.
use kb_pm.Prelude.{◌<◌, ◌≡◌, refl, [], arith, done, undefined, exited, replaced, replicate}
use kb_pm.CString.{Str, text}
use kb_pm.Process.{buffer_size, list_size}
use kb_pm.Server.{Server}
use kb_pm.Server.Requests.{Response}
use kb_pm.Server.Service.{zero_process}
use kb_pm.Server.Spec.{apps}
use kb_pm.Server.Contract.{stop_spec, remove_spec}
use kb_pm.Server.Wire.Exchange.{IsText}
use kb_pm.Client.{Terminal, Exit, Run, show_status, stop_process, remove_process}
use kb_pm.Session.{
  Session, respond, cleared_buffers, session_of, send_to, connect_to, abandon, at_service,
}
use kb_pm.Session.Told.{IsReadable, IsWaiting}
use kb_pm.Session.Tool.{IsSeen, stop-IsSeen, remove-IsSeen}
use kb_pm.Samples.Machines.{machine, service}
use kb_pm.Samples.Opened.{opened}
use kb_pm.Samples.Runs.{service-IsValid}
use kb_pm.Samples.Terminals.{terminal}

abbrev pub list_path : Str
list_path = text "/root/.kbpm/process_list.json"

-- The array of the tool is zero, and so is its list.
abbrev pub tool : Terminal
tool = record terminal {
  stack_buffer = replicate buffer_size 0;
  stack_list = replicate list_size zero_process;
}

abbrev pub answered_by : Response → Str × Server
answered_by (done a) = a
answered_by (exited n w) = ([], service)
answered_by (replaced w) = ([], service)
answered_by (undefined e) = ([], service)

abbrev pinged : Str × Server
pinged = answered_by (respond machine list_path (text "ping") [] cleared_buffers service)

pings : respond machine list_path (text "ping") [] cleared_buffers service ≡ done pinged
unfolding opened respond
pings = refl

abbrev stopped : Str × Server
stopped =
    answered_by (respond machine list_path (text "stop") (text "web") cleared_buffers pinged.1)

stops : respond machine list_path (text "stop") (text "web") cleared_buffers pinged.1 ≡ done stopped
unfolding opened respond
stops = refl

stopped-IsReadable : IsReadable buffer_size stopped.0
unfolding opened respond
stopped-IsReadable = record {
  plain = ground arith;
  long = omega arith;
  fits = omega arith;
  room = omega arith;
}

abbrev exit_of : Run (at_service machine list_path tool) → Exit Session
exit_of (done e) = e
exit_of (exited n w) = record { status = 9; output = []; peer = session_of service }
exit_of (replaced w) = record { status = 9; output = []; peer = session_of service }
exit_of (undefined e) = record { status = 9; output = []; peer = session_of service }

abbrev shown : Exit Session
shown = exit_of (show_status (at_service machine list_path tool) (session_of stopped.1))

shows : show_status (at_service machine list_path tool) (session_of stopped.1) ≡ done shown
unfolding opened respond send_to connect_to abandon
shows = refl

pub web-IsText : IsText (text "web")
web-IsText = ground arith

pub service-IsWaiting : IsWaiting (session_of service)
service-IsWaiting = record { alive = refl; asked = refl; buffers = refl; valid = service-IsValid }

stop-IsSeen_example :
    IsSeen tool machine list_path buffer_size refl
      (omega arith)
      (stop_process (at_service machine list_path tool) (text "web") (session_of service))
      shown
      stopped.0
      stopped.1
      (stop_spec (text "web") (apps service))
stop-IsSeen_example =
    stop-IsSeen tool machine list_path buffer_size refl (omega arith) (text "web") pinged.0
      stopped.0 (session_of service) pinged.1 stopped.1 shown service-IsWaiting web-IsText
      (omega arith) pings stops stopped-IsReadable shows

abbrev removed : Str × Server
removed =
    answered_by (respond machine list_path (text "remove") (text "web") cleared_buffers pinged.1)

removes :
    respond machine list_path (text "remove") (text "web") cleared_buffers pinged.1 ≡ done removed
unfolding opened respond
removes = refl

removed-IsReadable : IsReadable buffer_size removed.0
unfolding opened respond
removed-IsReadable = record {
  plain = ground arith;
  long = omega arith;
  fits = omega arith;
  room = omega arith;
}

abbrev shown_rest : Exit Session
shown_rest = exit_of (show_status (at_service machine list_path tool) (session_of removed.1))

shows_rest :
    show_status (at_service machine list_path tool) (session_of removed.1) ≡ done shown_rest
unfolding opened respond send_to connect_to abandon
shows_rest = refl

spare : pinged.1.process_count < list_size
unfolding opened respond
spare = omega arith

remove-IsSeen_example :
    IsSeen tool machine list_path buffer_size refl
      (omega arith)
      (remove_process (at_service machine list_path tool) (text "web") (session_of service))
      shown_rest
      removed.0
      removed.1
      (remove_spec (text "web") (apps service))
remove-IsSeen_example =
    remove-IsSeen tool machine list_path buffer_size refl (omega arith) (text "web") pinged.0
      removed.0 (session_of service) pinged.1 removed.1 shown_rest service-IsWaiting spare
      web-IsText (omega arith) pings removes removed-IsReadable shows_rest
