-- ===== src/Proc/Tests.antt =====
use kb_pm.Prelude.{
  ◌≡◌, refl, true, false, none, some, [], ◌∷◌, ◌++◌, if◌then◌else◌, ℤ, pos, negsuc, eq_ℤ, done,
  undefined, Fault, Option,
}
use kb_pm.CString.{Str, text, strcpy, starts_with, atoi, show_int, eq_str}
use kb_pm.Utils.{is_number}
use kb_pm.System.{Event, Env}
use kb_pm.Proc.{
  parse_proc_status_val_by_tag, get_child_pids, find_tag, fgets_all, cut_lines, chop, skip_to_digit,
  visit_entries, visit_entry, add_if_child, push_pid,
}

abbrev newline : Str
newline = 0x0a ∷ []

abbrev tab : Str
tab = 0x09 ∷ []

-- 77 and 300 are children of 12.
abbrev status_of : ℤ → Option Str
status_of p =
    if eq_ℤ p (pos 12)
    then some (
        text "Name:" ++ tab ++ text "bash" ++ newline ++ text "PPid:" ++ tab ++ text "1" ++ newline)
    else if eq_ℤ p (pos 77)
    then some (
        text "Name:"
        ++ tab
        ++ text "sh"
        ++ newline
        ++ text "PPid:"
        ++ tab
        ++ text "12"
        ++ newline
        ++ text "VmHWM:"
        ++ tab
        ++ text "  880 kB"
        ++ newline)
    else if eq_ℤ p (pos 300)
    then some (text "PPid:" ++ tab ++ text "12" ++ newline)
    else none

abbrev env : Env
env = record {
  fork = λ log. pos 77;
  time = λ log. pos 5;
  execl = λ log cmd. true;
  proc_dir = λ log. some (
      record { d_name = text "self"; is_dir = true }
      ∷ record { d_name = text "12"; is_dir = true }
      ∷ record { d_name = text "77"; is_dir = true }
      ∷ record { d_name = text "300"; is_dir = true }
      ∷ record { d_name = text "99"; is_dir = false }
      ∷ []);
  status = λ log p. status_of p;
  wait = λ log. negsuc 0;
  writable = λ log path. true;
  home = some (text "/root");
  exists = λ log path. true;
  setsid = λ log. pos 1;
  pthread_mutex_init = λ log. pos 0;
  pthread_create = λ log. pos 0;
  depth = 3;
}

memory_read :
    parse_proc_status_val_by_tag env [] (pos 77) (text "VmHWM")
    ≡ done (text "880 kB", Event.read_status (pos 77) ∷ [])
unfolding parse_proc_status_val_by_tag find_tag fgets_all cut_lines chop skip_to_digit strcpy
    starts_with
memory_read = refl

process_gone :
    parse_proc_status_val_by_tag env [] (pos 78) (text "VmHWM") ≡ undefined Fault.null_pointer
unfolding parse_proc_status_val_by_tag find_tag fgets_all cut_lines chop skip_to_digit strcpy
    starts_with
process_gone = refl

children_found :
    get_child_pids env (pos 12) []
    ≡ done (
      some (pos 77 ∷ pos 300 ∷ []),
      Event.listed_proc
          ∷ Event.changed_dir (text "/proc/")
          ∷ Event.read_status (pos 12)
          ∷ Event.read_status (pos 77)
          ∷ Event.read_status (pos 300)
          ∷ [],
    )
unfolding get_child_pids visit_entries visit_entry add_if_child push_pid
    parse_proc_status_val_by_tag find_tag fgets_all cut_lines chop skip_to_digit strcpy starts_with
    atoi show_int is_number eq_str
children_found = refl
