-- ===== src/Samples/Rounds.antt =====
-- What the service of the samples does with all its programs at once, and at its start.
use kb_pm.Prelude.{
  ℕ, ◌≡◌, ◌++◌, All, refl, some, List, [], ◌∷◌, arith, pos, done, Outcome, undefined, exited,
  replaced, map, replicate,
}
use kb_pm.CString.{Str, text, eq_str}
use kb_pm.System.{Log, Event}
use kb_pm.Process.{Process, list_size}
use kb_pm.Process.Json.{parse_process_list_from_path}
use kb_pm.Server.{Server}
use kb_pm.Server.Requests.{
  Response, get_process_list_status, server_stop_all_process, server_start_all_process,
  get_running_process_count,
}
use kb_pm.Server.Service.{await_child, service_start, zero_process, loaded_count}
use kb_pm.Server.Spec.{IsValid, apps, entries}
use kb_pm.Server.Sweep.{
  halt_if_running, AllRaised, server_stop_all_process-refines, server_start_all_process-refines,
}
use kb_pm.Server.Status.{get_process_list_status-refines}
use kb_pm.Server.Daemon.SetUp.{daemon_events}
use kb_pm.Server.Boot.{config_events, IsStartEvent, service_start-booted}
use kb_pm.Server.Startup.{IsLoaded, AllResumed, service_start-refines}
use kb_pm.Samples.Documents.{arr, str, num, show_doc}
use kb_pm.Samples.Machines.{machine, env, boot_machine, boot_env, service}
use kb_pm.Samples.Opened.{opened}
use kb_pm.Samples.Runs.{service-IsValid, vacant, cons_ne_nil}

-- The service that a call leaves.
abbrev pub after : Outcome Log Server → Server
after (done s) = s
after (exited n w) = service
after (replaced w) = service
after (undefined e) = service

abbrev all_stopped : Server
all_stopped = after (server_stop_all_process machine service)

stop_all : server_stop_all_process machine service ≡ done all_stopped
unfolding opened
stop_all = refl

server_stop_all_process-refines_example :
    IsValid all_stopped
    × (apps all_stopped ≡ map halt_if_running (apps service))
    × (get_running_process_count all_stopped ≡ 0)
server_stop_all_process-refines_example =
    server_stop_all_process-refines machine service all_stopped service-IsValid stop_all

abbrev all_started : Server
all_started = after (server_start_all_process machine service)

start_all : server_start_all_process machine service ≡ done all_started
unfolding opened
start_all = refl

server_start_all_process-refines_example :
    IsValid all_started
    × AllRaised env (apps service) (apps all_started)
    × (get_running_process_count all_started ≡ service.process_count)
server_start_all_process-refines_example =
    server_start_all_process-refines machine service all_started service-IsValid start_all

-- `wait` answers that `web` has ended.
abbrev revived : Server
revived = after (await_child machine service)

web_ended : await_child machine service ≡ done revived
unfolding opened
web_ended = refl

-- The configuration file: `web` was running when it was saved.
abbrev pub config : Str
config =
    show_doc
      (arr (
        ((text "app_name", str (text "web"))
          ∷ (text "cmd", str (text "./web"))
          ∷ (text "dir", str (text "/srv"))
          ∷ (text "is_running", num (pos 1))
          ∷ [])
        ∷ ((text "app_name", str (text "job"))
            ∷ (text "cmd", str (text "./job"))
            ∷ (text "dir", str (text "/srv"))
            ∷ (text "is_running", num (pos 0))
            ∷ [])
        ∷ []))
      []

abbrev saved_web : Process
saved_web = record zero_process {
  app_name = text "web";
  cmd = text "./web";
  dir = text "/srv";
  is_running = pos 1;
}

abbrev saved_job : Process
saved_job = record zero_process { app_name = text "job"; cmd = text "./job"; dir = text "/srv" }

abbrev pub saved : List Process
saved = saved_web ∷ saved_job ∷ replicate 254 zero_process

pub loads_saved :
    parse_process_list_from_path machine.json machine.fallthrough
      (some config)
      (machine.stale [])
      (replicate list_size zero_process)
    ≡ done (pos 2, saved)
unfolding opened
loads_saved = refl

pub saved-IsLoaded : IsLoaded (loaded_count (pos 2)) saved
unfolding eq_str
saved-IsLoaded = record {
  sized = refl;
  counted = omega arith;
  vacant = vacant 254;
  named = (cons_ne_nil _ _, (λ idle. refl), (refl, tt), (cons_ne_nil _ _, (λ idle. refl), tt, tt));
}

abbrev pub begun : Server
begun = after (service_start boot_machine (some config) [])

pub begins : service_start boot_machine (some config) [] ≡ done begun
unfolding opened
begins = refl

service_start-refines_example :
    IsValid begun × AllResumed boot_env (entries (loaded_count (pos 2)) saved) (apps begun)
service_start-refines_example =
    service_start-refines boot_machine (some config) [] (pos 2) saved begun loads_saved
      saved-IsLoaded begins

service_start-booted_example :
    (home : Str) × (session : ℕ) × (rest : Log) × (boot_env.home ≡ some home)
    × (begun.log
        ≡ []
          ++ (config_events boot_env [] home
              ++ (daemon_events session
                  ++ (Event.made_mutex (pos 0) ∷ Event.made_thread (pos 0) ∷ rest))))
    × All IsStartEvent rest
service_start-booted_example = service_start-booted boot_machine (some config) [] begun begins

-- Text that the response held before.
abbrev stale_response : Str
stale_response = text "pong"

abbrev status_out : Response → Str × Server
status_out (done a) = a
status_out (exited n w) = ([], service)
status_out (replaced w) = ([], service)
status_out (undefined e) = ([], service)

-- Only stopped programs are asked for: the status of the processes is not read.
abbrev shown : Str × Server
shown = status_out (get_process_list_status machine stale_response all_stopped)

shows : get_process_list_status machine stale_response all_stopped ≡ done shown
unfolding opened
shows = refl

get_process_list_status-refines_example : IsValid shown.1 × (apps shown.1 ≡ apps all_stopped)
get_process_list_status-refines_example =
    get_process_list_status-refines machine stale_response all_stopped shown.0 shown.1
      (server_stop_all_process-refines machine service all_stopped service-IsValid stop_all).0 shows
