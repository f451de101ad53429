-- ===== src/Samples/Histories.antt =====
-- A history of the service of the samples: it starts, serves a client and sees a child end.
use kb_pm.Prelude.{
  ℕ, ◌≡◌, ◌<◌, refl, some, List, [], arith, pos, done, Outcome, undefined, exited, replaced,
  replicate,
}
use kb_pm.CString.{Str, text}
use kb_pm.System.{Log}
use kb_pm.Process.{buffer_size, list_size}
use kb_pm.Server.{Server}
use kb_pm.Server.Wire.{c_string, read_into, pong_and_receive_data}
use kb_pm.Server.Service.{serve_client, await_child}
use kb_pm.Server.Spec.{IsValid}
use kb_pm.Server.Refine.Start.{NamesPrograms}
use kb_pm.Server.Reach.{Reach, Reach-IsValid}
use kb_pm.Proc.Signals.{AllAimed}
use kb_pm.Server.Signals.Histories.{Reach-AllAimed}
use kb_pm.Server.Reach.Reach.{starts, serves, reaps}
use kb_pm.Samples.Machines.{boot_machine, service}
use kb_pm.Samples.Opened.{opened}
use kb_pm.Samples.Rounds.{config, saved, loads_saved, saved-IsLoaded, begun, begins, after}

abbrev path : Str
path = text "/root/.kbpm/kbpm.json"

abbrev buffers : List ℕ × Str
buffers = (replicate 20 0, [])

abbrev cleared : List ℕ × Str
cleared = (replicate buffer_size 0, [])

abbrev served_by : Outcome Log ((List ℕ × Str) × Server) → Server
served_by (done a) = a.1
served_by (exited n w) = service
served_by (replaced w) = service
served_by (undefined e) = service

-- `kbpm stop web`
abbrev served : Server
served = served_by (serve_client boot_machine path (text "stop") (text "web") buffers begun)

stops_web :
    serve_client boot_machine path (text "stop") (text "web") buffers begun ≡ done (cleared, served)
unfolding opened
stops_web = refl

names :
    NamesPrograms boot_machine begun
      (c_string (pong_and_receive_data (read_into buffers.0 (text "stop")) (text "web")))
unfolding opened
names p e = absurd (cc)

room : begun.process_count < list_size
unfolding opened
room = omega arith

abbrev ended : Server
ended = after (await_child boot_machine served)

child_ends : await_child boot_machine served ≡ done ended
unfolding opened
child_ends = refl

-- It starts, it is told to stop `web`, and a child ends.
abbrev history : Reach boot_machine (some config) path cleared ended
history =
    reaps
      (serves (text "stop") (text "web") (starts [] (pos 2) saved loads_saved saved-IsLoaded begins)
        room names stops_web)
      child_ends

Reach-IsValid_example : IsValid ended
Reach-IsValid_example =
    Reach-IsValid {m = boot_machine} {config = some config} {path = path} {buffers = cleared}
      {s = ended} history

Reach-AllAimed_example : AllAimed ended.log
Reach-AllAimed_example =
    Reach-AllAimed {m = boot_machine} {config = some config} {path = path} {buffers = cleared}
      {s = ended} history tt
