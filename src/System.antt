-- ===== src/System.antt =====
-- The operating system as the program meets it. Every call that matters to the program's behaviour
-- is an event of a log, and the system's answer to a call may depend on all that has happened.
use kb_pm.Prelude.{ℕ, Bool, Option, List, [], ◌∷◌, ◌++◌, ℤ}
use kb_pm.CString.{Str}

pub data Event : Type 0 where
  -- `fork` answered this number
  forked : ℤ → Event
  -- `time` answered this number
  read_clock : ℤ → Event
  -- `kill(pid, SIGKILL)`
  killed : ℤ → Event
  -- a call of `chdir`
  changed_dir : Str → Event
  -- `bash -c` was started in place of the program
  executed : Str → Event
  -- a listing of /proc
  listed_proc : Event
  -- a status file was read
  read_status : ℤ → Event
  -- a call of `unlink`
  unlinked : Str → Event
  -- the terminal's signals are ignored from here on
  ignored_signals : Event
  -- a file was written
  wrote_file : Str → Str → Event
  -- `usleep`
  slept : ℕ → Event
  -- `wait` answered this number
  waited : ℤ → Event
  -- a response was written to the client
  answered : Str → Event
  -- a call of `mkdir`
  made_dir : Str → Event
  -- `open` with O_CREAT
  created_file : Str → Event
  -- `setsid` answered this number
  made_session : ℤ → Event
  -- `pthread_mutex_init` answered this number
  made_mutex : ℤ → Event
  -- `pthread_create` answered this number
  made_thread : ℤ → Event
  -- a message on the standard error
  complained : Str → Event

abbrev pub Log : Type 0
Log = List Event

-- The latest event stands last.
abbrev pub record_event : Log → Event → Log
record_event log e = log ++ e ∷ []

-- An entry of a directory, with what `lstat` says of it.
pub record Entry : Type 0 where
  pub d_name : Str
  pub is_dir : Bool

pub record Env : Type 0 where
  pub fork : Log → ℤ
  pub time : Log → ℤ
  -- whether `execl` of this command replaces the program
  pub execl : Log → Str → Bool
  -- the entries of /proc, or `none` if it cannot be opened
  pub proc_dir : Log → Option (List Entry)
  -- the text of /proc/<pid>/status, or `none` if it cannot be opened
  pub status : Log → ℤ → Option Str
  -- the answer of `wait(NULL)`: the number of a child that has ended, or -1
  pub wait : Log → ℤ
  -- whether `fopen` opens this file for writing
  pub writable : Log → Str → Bool
  -- the value of $HOME, or `none` if it is not set
  pub home : Option Str
  -- whether `access` finds this file
  pub exists : Log → Str → Bool
  pub setsid : Log → ℤ
  pub pthread_mutex_init : Log → ℤ
  pub pthread_create : Log → ℤ
  -- a bound on the depth of the process trees
  pub depth : ℕ
