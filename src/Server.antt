-- ===== src/Server.antt =====
-- src/server.c: the service, which keeps the list of the managed programs.
pub mod Lookup
pub mod Control
pub mod Requests
pub mod Wire
pub mod Daemon
pub mod Service
pub mod Spec
pub mod Entries
pub mod Deletion
pub mod Effects
pub mod Slots
pub mod Contract
pub mod Resolve
pub mod Pointwise
pub mod Sweep
pub mod Reap
pub mod Boot
pub mod Startup
pub mod Status
pub mod Progress
pub mod Revival
pub mod Returns
pub mod Answers
pub mod Removes
pub mod Reach
pub mod Signals
pub mod Restored
pub mod Durable
pub mod Ids
pub mod Full
pub mod Invariant
pub mod Refine
use kb_pm.Prelude.{ℕ, List}
use kb_pm.System.{Log}
use kb_pm.Process.{Process}

-- The globals `process_list` and `process_count`, and what the system has seen of the service.
pub record Server : Type 0 where
  pub slots : List Process
  pub process_count : ℕ
  pub log : Log
