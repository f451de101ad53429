-- ===== src/Session/NewProgram.antt =====
-- `kbpm start` of a file, over the service.
use kb_pm.Prelude.{◌≡◌, ◌≢◌, ◌≤◌, ◌<◌, List, [], ◌∷◌, ◌++◌, length, ℤ, pos, done}
use kb_pm.CString.{Str, text, show_int}
use kb_pm.Proc.{str_buffer_size}
use kb_pm.Process.{Process}
use kb_pm.Process.Document.{IsDocumentLibrary}
use kb_pm.Process.Json.{create_process_json_str}
use kb_pm.Process.Saved.{ReadsBack}
use kb_pm.Utils.Split.{IsPlain}
use kb_pm.Machine.{Machine}
use kb_pm.Server.{Server}
use kb_pm.Server.Wire.Exchange.{IsText}
use kb_pm.Server.Spec.{App}
use kb_pm.Client.{Terminal, new_process}
use kb_pm.Session.{Session, at_service}

-- The program that runs in the process `pid` since `time`, for the first time.
abbrev pub new_app : (name cmd dir : Str) (pid time : ℤ) → App
new_app name cmd dir pid time = record {
  name = name;
  cmd = cmd;
  dir = dir;
  pid = pid;
  is_running = pos 1;
  restart_times = pos 0;
  start_time = time;
}

-- The response to the start of a new program, and the programs then.
abbrev pub add_app : App → List App → Str × List App
add_app a list =
    (text "Starting " ++ a.name ++ text " with pid:" ++ show_int a.pid ++ text ".", list ++ a ∷ [])

-- What the tool sends for a file, and what the service makes of it.
pub record IsDocumentOf (t : Terminal) (m : Machine) (path front name sig : Str) (process : Process)
    : Type 1 where
  pub library : IsDocumentLibrary m.json
  pub plain : IsPlain (text "/") name
  pub named : name ≢ []
  pub short_dir : length t.cwd < str_buffer_size
  pub new : new_process (at_service m path t) (front ++ b'/' ∷ name) ≡ done process
  pub makes : create_process_json_str m.json process [] ≡ done (pos 0, sig)
  pub back : ReadsBack m.json sig
  pub texts : IsText sig
  pub fits : length sig ≤ str_buffer_size
