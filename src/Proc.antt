-- ===== src/Proc.antt =====
-- src/proc_status.c: what the program reads of /proc.
mod Tests
pub mod Lines
pub mod Children
pub mod Signals
use kb_pm.Prelude.{
  ℕ, zero, suc, ◌-◌, ◌≡◌, refl, Bool, true, false, ◌&&◌, ◌||◌, not, Option, none, some, List, [],
  ◌∷◌, ◌++◌, ltb, leb, ◌==◌, if◌then◌else◌, length, ℤ, pos, negsuc, Outcome, done, undefined, Fault,
  ◌>>=◌,
}
use kb_pm.CString.{Str, text, eq_str, starts_with, strcpy, is_digit, atoi, show_int}
use kb_pm.Utils.{is_number}
use kb_pm.System.{Log, Event, record_event, Entry, Env}

abbrev pub str_buffer_size : ℕ
str_buffer_size = 512

-- CHILD_PROCESS_LEN of process.h, the size of the array that a caller passes
abbrev pub child_process_len : ℕ
child_process_len = 4096

abbrev pub err_result : Str
err_result = text "error_result"

-- What calls of `fgets` with the buffer read, up to the end of the file: a line with its newline, or
-- as much of it as there is room for (`room`, one byte being left for the zero). `line` has been
-- read so far.
unfoldable pub cut_lines : ℕ → Str → Str → List Str
cut_lines room [] [] = []
cut_lines room (b ∷ line) [] = (b ∷ line) ∷ []
cut_lines room line (c ∷ s) =
    let ended = (line ++ c ∷ []) ∷ cut_lines (str_buffer_size - 1) [] s in
    let longer = cut_lines (room - 1) (line ++ c ∷ []) s in
    if c == 0x0a || leb room 1 then ended else longer

unfoldable pub fgets_all : Str → List Str
fgets_all s = cut_lines (str_buffer_size - 1) [] s

-- `buf[strlen(buf)-1] = 0`
unfoldable pub chop : Str → Str
chop [] = []
chop (c ∷ []) = []
chop (c ∷ d ∷ s) = c ∷ chop (d ∷ s)

-- `while(!(*p_buf >= '0' && *p_buf <= '9')) p_buf++`: with no digit in the line the pointer runs
-- past the end of the string.
unfoldable pub skip_to_digit : {W : Type 0} → Str → Outcome W Str
skip_to_digit [] = undefined Fault.out_of_bounds
skip_to_digit (c ∷ s) = let rest = skip_to_digit s in if is_digit c then done (c ∷ s) else rest

-- The loop over the lines of the file: `flag` is whether a line was found.
unfoldable pub find_tag : {W : Type 0} → Str → List Str → Outcome W Str
find_tag tag [] = strcpy str_buffer_size err_result
find_tag tag (buf ∷ lines) =
    let rest = find_tag tag lines in
    if starts_with buf tag then skip_to_digit (chop buf) >>= strcpy str_buffer_size else rest

-- The file is not checked: a null pointer goes to `fgets` when the process is gone.
unfoldable pub parse_proc_status_val_by_tag : Env → Log → ℤ → Str → Outcome Log (Str × Log)
parse_proc_status_val_by_tag env log pid tag = elim (env.status log pid) [
  | none ↦ undefined Fault.null_pointer
  | some file ↦
      find_tag tag (fgets_all file) >>= λ s. done (s, record_event log (Event.read_status pid))
]

-- `pid > 0 && pid <= 32767`
abbrev pub in_pid_range : ℤ → Bool
in_pid_range (pos n) = ltb 0 n && leb n 32767
in_pid_range (negsuc n) = false

-- `pids[pids_len++] = pid` into the caller's array
unfoldable pub push_pid : List ℤ → ℤ → Outcome Log (List ℤ)
push_pid pids pid =
    if ltb (length pids) child_process_len
    then done (pids ++ pid ∷ [])
    else undefined Fault.out_of_bounds

-- A process whose PPid reads as the parent's number is a child.
unfoldable pub add_if_child : ℤ → ℤ → List ℤ → Str → Outcome Log (List ℤ)
add_if_child parent_pid pid pids buf =
    if not (eq_str buf err_result) && eq_str (show_int parent_pid) buf
    then push_pid pids pid
    else done pids

-- One round of the `readdir` loop.
unfoldable pub visit_entry : Env → ℤ → Entry → List ℤ × Log → Outcome Log (List ℤ × Log)
visit_entry env parent_pid entry (pids, log) =
    let pid = atoi entry.d_name in
    let next = do
      (buf, log') ← parse_proc_status_val_by_tag env log pid (text "PPid")
      pids' ← add_if_child parent_pid pid pids buf
      done (pids', log')
    in if entry.is_dir && is_number entry.d_name && in_pid_range pid then next else done (pids, log)

unfoldable pub visit_entries : Env → ℤ → List Entry → List ℤ × Log → Outcome Log (List ℤ × Log)
visit_entries env parent_pid [] s = done s
visit_entries env parent_pid (entry ∷ entries) s =
    visit_entry env parent_pid entry s >>= visit_entries env parent_pid entries

-- The array and its length; `none` is the length -1, when /proc cannot be opened.
unfoldable pub get_child_pids : Env → ℤ → Log → Outcome Log (Option (List ℤ) × Log)
get_child_pids env parent_pid log = elim (env.proc_dir log) [
  | none ↦ done (none, record_event log Event.listed_proc)
  | some entries ↦
      visit_entries env parent_pid entries
        ([], record_event (record_event log Event.listed_proc) (Event.changed_dir (text "/proc/")))
      >>= λ (pids, log'). done (some pids, log')
]
