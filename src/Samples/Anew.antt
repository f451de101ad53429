-- ===== src/Samples/Anew.antt =====
-- A program is restarted by the tool, on a system where each process has a status file.
use kb_pm.Prelude.{
  ◌≡◌, refl, none, some, [], ◌++◌, arith, pos, done, Option, undefined, exited, replaced,
}
use kb_pm.CString.{Str, text}
use kb_pm.System.{Log}
use kb_pm.Process.{buffer_size}
use kb_pm.Machine.{Machine}
use kb_pm.Server.{Server}
use kb_pm.Server.Spec.{apps}
use kb_pm.Server.Contract.{restart_spec}
use kb_pm.Server.Effects.{time_after_fork}
use kb_pm.Client.{Exit, Run, show_status, restart_process}
use kb_pm.Session.{
  Session, respond, cleared_buffers, session_of, send_to, connect_to, abandon, at_service,
}
use kb_pm.Session.Told.{IsReadable}
use kb_pm.Session.Tool.{IsSeen}
use kb_pm.Session.Restart.{restart-IsSeen}
use kb_pm.Samples.Machines.{machine, env, service, status_of, newline}
use kb_pm.Samples.Opened.{opened}
use kb_pm.Samples.Sessions.{tool, list_path, answered_by, service-IsWaiting, web-IsText}

abbrev some_status : Option Str → Option Str
some_status none = some (text "PPid:  500" ++ newline ++ text "VmHWM:   904 kB" ++ newline)
some_status (some s) = some s

abbrev living : Machine
living = record machine {
  env = record env { status = λ log p. some_status (status_of p) };
  fallthrough = λ p. pos 0;
}

abbrev pinged : Str × Server
pinged = answered_by (respond living list_path (text "ping") [] cleared_buffers service)

pings : respond living list_path (text "ping") [] cleared_buffers service ≡ done pinged
unfolding opened respond
pings = refl

abbrev exit_of : Run (at_service living list_path tool) → Exit Session
exit_of (done e) = e
exit_of (exited n w) = record { status = 9; output = []; peer = session_of service }
exit_of (replaced w) = record { status = 9; output = []; peer = session_of service }
exit_of (undefined e) = record { status = 9; output = []; peer = session_of service }

abbrev restarted : Str × Server
restarted =
    answered_by (respond living list_path (text "restart") (text "web") cleared_buffers pinged.1)

restarts :
    respond living list_path (text "restart") (text "web") cleared_buffers pinged.1 ≡ done restarted
unfolding opened respond
restarts = refl

restarted-IsReadable : IsReadable buffer_size restarted.0
unfolding opened respond
restarted-IsReadable = record {
  plain = ground arith;
  long = omega arith;
  fits = omega arith;
  room = omega arith;
}

abbrev shown_anew : Exit Session
shown_anew = exit_of (show_status (at_service living list_path tool) (session_of restarted.1))

shows_anew :
    show_status (at_service living list_path tool) (session_of restarted.1) ≡ done shown_anew
unfolding opened respond send_to connect_to abandon
shows_anew = refl

restart-IsSeen_example :
    (log : Log) × IsSeen tool living list_path buffer_size refl
      (omega arith)
      (restart_process (at_service living list_path tool) (text "web") (session_of service))
      shown_anew
      restarted.0
      restarted.1
      (restart_spec
        (living.env.fork log)
        (time_after_fork living.env log)
        (text "web")
        (apps service))
restart-IsSeen_example =
    restart-IsSeen tool living list_path buffer_size refl (omega arith) (text "web") pinged.0
      restarted.0 (session_of service) pinged.1 restarted.1 shown_anew service-IsWaiting web-IsText
      (omega arith) pings restarts restarted-IsReadable shows_anew
