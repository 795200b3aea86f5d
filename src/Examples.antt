-- ===== src/Examples.antt =====
-- Tests, and the theorems at concrete inputs.
pub mod Setting
pub mod Sessions
pub mod Loop
pub mod Accounts
pub mod Contents
pub mod Lines
pub mod Runs
pub mod Windows
pub mod Clients
pub mod Submissions
pub mod Graphs
pub mod Terminals
pub mod Served
