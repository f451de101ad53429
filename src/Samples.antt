-- ===== src/Samples.antt =====
-- A small system, document library and service, on which the theorems are applied and the
-- definitions are run.
pub mod Documents
pub mod Machines
pub mod Opened
pub mod Runs
pub mod Families
pub mod Rounds
pub mod Histories
pub mod Crowd
pub mod Reading
pub mod Laws
pub mod Restarts
pub mod Terminals
pub mod Tables
pub mod Starters
pub mod Arguments
pub mod Sessions
pub mod Starts
pub mod Anew
