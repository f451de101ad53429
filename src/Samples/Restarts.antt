-- ===== src/Samples/Restarts.antt =====
-- The service of the samples saves its list, and another one starts on it.
use kb_pm.CString.{Str, text}
use kb_pm.System.{Log, Event, record_event}
use kb_pm.Process.{buffer_size}
use kb_pm.Server.Wire.{c_string, read_into, pong_and_receive_data}
use kb_pm.Server.Refine.Start.{NamesPrograms}
use kb_pm.Server.Durable.{served_survives}
use kb_pm.Prelude.{
  ℕ, ℤ, List, Outcome, undefined, exited, replaced, replicate, ◌≡◌, refl, map, arith, pos, done, [],
  some,
}
use kb_pm.Process.Json.{create_process_list_json_str}
use kb_pm.Process.Saved.{AllShort}
use kb_pm.Process.Table.{get_process_list_count}
use kb_pm.Machine.{Machine}
use kb_pm.Server.{Server}
use kb_pm.Server.Service.{service_start, serve_client}
use kb_pm.Server.Spec.{IsValid, apps}
use kb_pm.Server.Startup.{AllResumed}
use kb_pm.Server.Restored.{as_saved, saved_restored}
use kb_pm.Samples.Laws.{documents-IsDocumentLibrary}
use kb_pm.Samples.Machines.{boot_machine, boot_env, service}
use kb_pm.Samples.Opened.{opened}
use kb_pm.Samples.Reading.{documents-ReadsBack}
use kb_pm.Samples.Rounds.{config, after}
use kb_pm.Samples.Runs.{service-IsValid}

-- Calls that end without a `return` leave 0.
abbrev zero_machine : Machine
zero_machine = record boot_machine { fallthrough = λ p. pos 0 }

-- `service` was stopped in its middle: `web` ran and `job` did not.
saves_service :
    create_process_list_json_str zero_machine.json service.slots
      (get_process_list_count service.slots)
      []
    ≡ done (pos 0, config)
unfolding opened
saves_service = refl

abbrev restarted : Server
restarted = after (service_start zero_machine (some config) [])

restarts : service_start zero_machine (some config) [] ≡ done restarted
unfolding opened
restarts = refl

service-AllShort : AllShort service.process_count service.slots
service-AllShort = (
  record { app_name = omega arith; cmd = omega arith; dir = omega arith; is_running = omega arith },
  (
    record {
      app_name = omega arith;
      cmd = omega arith;
      dir = omega arith;
      is_running = omega arith;
    },
    tt,
  ),
)

saved_restored_example :
    IsValid restarted × AllResumed boot_env (map as_saved (apps service)) (apps restarted)
saved_restored_example =
    saved_restored zero_machine service restarted [] config [] documents-IsDocumentLibrary
      (λ p. refl) service-IsValid service-AllShort saves_service (documents-ReadsBack config)
      restarts

abbrev list_path : Str
list_path = text "/root/.kbpm/process_list.json"

abbrev cleared : List ℕ × Str
cleared = (replicate buffer_size 0, [])

abbrev served_by : Outcome Log ((List ℕ × Str) × Server) → Server
served_by (done a) = a.1
served_by (exited n w) = service
served_by (replaced w) = service
served_by (undefined e) = service

-- `kbpm stop web`, and then the service dies.
abbrev left : Server
left = served_by (serve_client zero_machine list_path (text "stop") (text "web") cleared service)

serves_stop :
    serve_client zero_machine list_path (text "stop") (text "web") cleared service
    ≡ done (cleared, left)
unfolding opened
serves_stop = refl

no_new_program :
    NamesPrograms zero_machine service
      (c_string (pong_and_receive_data (read_into cleared.0 (text "stop")) (text "web")))
unfolding opened
no_new_program p e = absurd (cc)

abbrev document_of : Outcome Log (ℤ × Str) → Str
document_of (done a) = a.1
document_of (exited n w) = []
document_of (replaced w) = []
document_of (undefined e) = []

abbrev left_document : Str
left_document = document_of (
    create_process_list_json_str zero_machine.json left.slots (get_process_list_count left.slots)
      [])

makes_left :
    (old : Str)
    → create_process_list_json_str zero_machine.json left.slots
        (get_process_list_count left.slots)
        old
      ≡ done (pos 0, left_document)
unfolding opened
makes_left old = refl

left-AllShort : AllShort left.process_count left.slots
unfolding opened
left-AllShort = (
  record { app_name = omega arith; cmd = omega arith; dir = omega arith; is_running = omega arith },
  (
    record {
      app_name = omega arith;
      cmd = omega arith;
      dir = omega arith;
      is_running = omega arith;
    },
    tt,
  ),
)

abbrev recovered : Server
recovered = after (service_start zero_machine (some left_document) [])

recovers : service_start zero_machine (some left_document) [] ≡ done recovered
unfolding opened
recovers = refl

served_survives_example :
    ((earlier : Log) × (left.log ≡ record_event earlier (Event.wrote_file list_path left_document)))
    × IsValid recovered
    × AllResumed boot_env (map as_saved (apps left)) (apps recovered)
served_survives_example =
    served_survives zero_machine list_path (text "stop") (text "web") cleared cleared service left
      recovered left_document [] documents-IsDocumentLibrary (λ p. refl) service-IsValid
      (omega arith) no_new_program serves_stop left-AllShort makes_left
      (documents-ReadsBack left_document) recovers
