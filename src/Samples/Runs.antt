-- ===== src/Samples/Runs.antt =====
-- Requests to the service of the samples, and the theorems about them at these requests.
use kb_pm.Prelude.{
  ℕ, zero, suc, ◌≡◌, ◌≢◌, ap, ◌∙◌, refl, inl, inr, [], ◌∷◌, arith, done, Outcome, undefined, exited,
  replaced, pos, set, All, replicate,
}
use kb_pm.CString.{Str, text, eq_str}
use kb_pm.System.{Log, Event}
use kb_pm.Process.{Process}
use kb_pm.Server.{Server}
use kb_pm.Server.Lookup.{RequestType}
use kb_pm.Server.Requests.{
  Response, server_stop_process_and_get_response, server_start_process_and_get_response,
  server_restart_process_and_get_response, server_remove_process_and_get_response,
}
use kb_pm.Server.Spec.{IsValid, apps, IsVacant}
use kb_pm.Server.Contract.{stop_spec, restart_spec, remove_spec}
use kb_pm.Server.Effects.{time_after_fork}
use kb_pm.Server.Service.{zero_process}
use kb_pm.Server.Refine.Stop.{stop_refines}
use kb_pm.Server.Refine.Start.{StartMeets, NamesPrograms, start_refines}
use kb_pm.Server.Refine.Restart.{restart_refines}
use kb_pm.Server.Refine.Remove.{remove_refines}
use kb_pm.Samples.Documents.{obj, str, num, show_doc}
use kb_pm.Samples.Machines.{machine, service, web}
use kb_pm.Samples.Opened.{opened}

-- The service that a request leaves.
abbrev left_by : Response → Server
left_by (done a) = a.1
left_by (exited n w) = service
left_by (replaced w) = service
left_by (undefined e) = service

pub vacant : (n : ℕ) → All IsVacant (replicate n zero_process)
vacant zero = tt
vacant (suc n) = (refl, vacant n)

pub service-IsValid : IsValid service
unfolding eq_str
service-IsValid = record {
  sized = refl;
  counted = omega arith;
  numbered = (refl, (refl, vacant 254));
  good = (λ e. cc, inr (refl, omega arith), (refl, tt), (λ e. cc, inl (refl, refl), tt, tt));
}

abbrev stopped_web : Server
stopped_web = record service {
  slots = set service.slots 0 (record web { pid = pos 0; is_running = pos 0; start_time = pos 0 });
  log =
      Event.listed_proc
      ∷ Event.changed_dir (text "/proc/")
      ∷ Event.read_status (pos 12)
      ∷ Event.read_status (pos 77)
      ∷ Event.read_status (pos 300)
      ∷ Event.killed (pos 12)
      ∷ Event.listed_proc
      ∷ Event.changed_dir (text "/proc/")
      ∷ Event.read_status (pos 12)
      ∷ Event.read_status (pos 77)
      ∷ Event.read_status (pos 300)
      ∷ Event.killed (pos 77)
      ∷ Event.listed_proc
      ∷ Event.changed_dir (text "/proc/")
      ∷ Event.read_status (pos 12)
      ∷ Event.read_status (pos 77)
      ∷ Event.read_status (pos 300)
      ∷ Event.killed (pos 300)
      ∷ [];
}

-- The program is named by its id; its two children are killed with it.
stop_web :
    server_stop_process_and_get_response machine (text "0") service
    ≡ done (text "Stopped web success.", stopped_web)
unfolding opened
stop_web = refl

stop_refines_example :
    IsValid stopped_web
    × ((text "Stopped web success.", apps stopped_web) ≡ stop_spec (text "0") (apps service))
stop_refines_example =
    stop_refines machine (text "0") service (text "Stopped web success.") stopped_web
      service-IsValid stop_web

abbrev restarted : Server
restarted = left_by (server_restart_process_and_get_response machine (text "web") service)

restart_web :
    server_restart_process_and_get_response machine (text "web") service
    ≡ done (text "Restarted web with 518.", restarted)
unfolding opened
restart_web = refl

restart_refines_example :
    (log : Log) × IsValid restarted
    × ((text "Restarted web with 518.", apps restarted)
        ≡ restart_spec
            (machine.env.fork log)
            (time_after_fork machine.env log)
            (text "web")
            (apps service))
restart_refines_example =
    restart_refines machine (text "web") service (text "Restarted web with 518.") restarted
      service-IsValid restart_web

abbrev removed : Server
removed = left_by (server_remove_process_and_get_response machine (text "web") service)

remove_web :
    server_remove_process_and_get_response machine (text "web") service
    ≡ done (text "Stopped And Removed web.", removed)
unfolding opened
remove_web = refl

remove_refines_example :
    IsValid removed
    × ((text "Stopped And Removed web.", apps removed) ≡ remove_spec (text "web") (apps service))
remove_refines_example =
    remove_refines machine (text "web") service (text "Stopped And Removed web.") removed
      service-IsValid (omega arith) remove_web

-- The document that a client sends to start ./new.
abbrev document : Str
document =
    show_doc
      (obj (
        (text "app_name", str (text "new"))
        ∷ (text "cmd", str (text "./new"))
        ∷ (text "dir", str (text "/srv"))
        ∷ (text "is_running", num (pos 1))
        ∷ []))
      []

abbrev started : Server
started = left_by (server_start_process_and_get_response machine document service)

start_new_program :
    server_start_process_and_get_response machine document service
    ≡ done (text "Starting new with pid:500.", started)
unfolding opened
start_new_program = refl

abbrev name_of : Outcome Log (RequestType × Process) → Str
name_of (done a) = a.1.app_name
name_of (exited n w) = []
name_of (replaced w) = []
name_of (undefined e) = []

pub cons_ne_nil : (c : ℕ) (s : Str) → c ∷ s ≢ []
cons_ne_nil c s h = cc

document-NamesPrograms : NamesPrograms machine service document
unfolding opened
document-NamesPrograms p e empty = cons_ne_nil b'n' (text "ew") (ap name_of e ∙ empty)

start_refines_example :
    IsValid started
    × StartMeets machine service document (text "Starting new with pid:500.", apps started)
start_refines_example =
    start_refines machine document service (text "Starting new with pid:500.") started
      service-IsValid document-NamesPrograms start_new_program
