-- ===== src/Samples/Starts.antt =====
-- The client of the samples starts a file on the service of the samples.
use kb_pm.Prelude.{[], pos, done, undefined, exited, replaced}
use kb_pm.CString.{Str, text}
use kb_pm.Machine.{Machine}
use kb_pm.Server.{Server}
use kb_pm.Client.{Exit, Run, show_status}
use kb_pm.Session.{Session, respond, cleared_buffers, session_of, at_service}
use kb_pm.Samples.Machines.{machine, service}
use kb_pm.Samples.Sessions.{tool, list_path, answered_by}
use kb_pm.Samples.Terminals.{document}

-- Calls that end without a `return` leave 0.
abbrev zero_machine : Machine
zero_machine = record machine { fallthrough = λ p. pos 0 }

abbrev pinged : Str × Server
pinged = answered_by (respond zero_machine list_path (text "ping") [] cleared_buffers service)

abbrev started : Str × Server
started =
    answered_by (respond zero_machine list_path (text "start") document cleared_buffers pinged.1)

-- The status that the tool shows.
abbrev exit_of : Run (at_service zero_machine list_path tool) → Exit Session
exit_of (done e) = e
exit_of (exited n w) = record { status = 9; output = []; peer = session_of service }
exit_of (replaced w) = record { status = 9; output = []; peer = session_of service }
exit_of (undefined e) = record { status = 9; output = []; peer = session_of service }

abbrev shown : Exit Session
shown = exit_of (show_status (at_service zero_machine list_path tool) (session_of started.1))
