-- ===== src/Samples/Machines.antt =====
-- A system with a few processes, and services on it.
use kb_pm.Prelude.{
  ◌+◌, ltb, true, false, none, some, [], ◌∷◌, ◌++◌, Option, if◌then◌else◌, length, ℤ, pos, eq_ℤ,
  replicate,
}
use kb_pm.CString.{Str, text}
use kb_pm.System.{Env}
use kb_pm.Process.{Process}
use kb_pm.Machine.{Machine}
use kb_pm.Server.{Server}
use kb_pm.Server.Service.{zero_process}
use kb_pm.Samples.Documents.{documents}

abbrev pub newline : Str
newline = 0x0a ∷ []

-- The texts of the status files: 77 and 300 are children of 12.
abbrev pub status_of : ℤ → Option Str
status_of p =
    if eq_ℤ p (pos 12)
    then some (text "Name:  bash" ++ newline ++ text "PPid:  1" ++ newline)
    else if eq_ℤ p (pos 77)
    then some (text "PPid:  12" ++ newline ++ text "VmHWM:   880 kB" ++ newline)
    else if eq_ℤ p (pos 300)
    then some (text "PPid:  12" ++ newline)
    else none

-- Every `fork` answers 500 and the number of events so far; a second passes with each event.
abbrev pub env : Env
env = record {
  fork = λ log. pos (500 + length log);
  time = λ log. pos (1000 + length log);
  execl = λ log cmd. true;
  proc_dir = λ log. some (
      record { d_name = text "self"; is_dir = true }
      ∷ record { d_name = text "12"; is_dir = true }
      ∷ record { d_name = text "77"; is_dir = true }
      ∷ record { d_name = text "300"; is_dir = true }
      ∷ []);
  status = λ log p. status_of p;
  wait = λ log. pos 12;
  writable = λ log path. true;
  home = some (text "/root");
  exists = λ log path. true;
  setsid = λ log. pos 1;
  pthread_mutex_init = λ log. pos 0;
  pthread_create = λ log. pos 0;
  depth = 3;
}

abbrev pub machine : Machine
machine = record {
  env = env;
  json = documents;
  fallthrough = λ p. p.is_running;
  stack = λ log. zero_process;
  stale = λ log. [];
}

-- A system on which the service starts for the first time: it makes its file, and each `fork` is
-- followed in the child until the service runs in the background.
abbrev pub boot_env : Env
boot_env = record env {
  fork = λ log. if ltb (length log) 7 then pos 0 else pos (500 + length log);
  exists = λ log path. false;
}

abbrev pub boot_machine : Machine
boot_machine = record machine { env = boot_env }

abbrev pub web : Process
web = record zero_process {
  app_name = text "web";
  cmd = text "./web";
  dir = text "/srv";
  pid = pos 12;
  is_running = pos 1;
  start_time = pos 900;
}

abbrev pub job : Process
job = record zero_process {
  app_name = text "job";
  cmd = text "./job";
  dir = text "/srv";
  id = pos 1;
}

-- `web` runs, `job` is stopped.
abbrev pub service : Server
service = record { slots = web ∷ job ∷ replicate 254 zero_process; process_count = 2; log = [] }
