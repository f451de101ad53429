-- ===== src/Process.antt =====
-- src/process.h and src/process.c: the record of a managed program, and its operations.
pub mod Kill
pub mod Signals
pub mod Table
pub mod Document
pub mod Family
pub mod Json
pub mod Stored
pub mod Saved
use kb_pm.Prelude.{ℕ, ◌*◌, ℤ}
use kb_pm.CString.{Str}

-- `process_s`. The four strings are the contents of arrays of STR_BUFFER_SIZE bytes.
pub record Process : Type 0 where
  pub app_name : Str
  pub cmd : Str
  pub dir : Str
  pub pid : ℤ
  -- 0 for false, 1 for true
  pub is_running : ℤ
  pub id : ℤ
  pub memory : Str
  pub restart_times : ℤ
  pub start_time : ℤ

-- LIST_SIZE, the number of slots of a process list
abbrev pub list_size : ℕ
list_size = 256

-- BUFFER_SIZE, the size of the buffers for documents
abbrev pub buffer_size : ℕ
buffer_size = 40 * 1024
