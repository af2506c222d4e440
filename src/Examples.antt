-- ===== src/Examples.antt =====
-- The theorems applied to concrete states.
pub mod Space
pub mod Pages
pub mod Ranges
pub mod Memory
pub mod Procs
pub mod Exits
pub mod Calls
pub mod Schedules
pub mod Lines
pub mod Reports
