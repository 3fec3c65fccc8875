-- ===== src/Tests.antt =====
-- Runs of the definitions on concrete inputs, and the theorems at inputs that meet their hypotheses.
pub mod World
pub mod Machines
pub mod Presence
pub mod Claims
pub mod Pools
pub mod Keeping
pub mod Runs
pub mod Start
pub mod Registration
pub mod Counting
pub mod Idle
pub mod Bounds
pub mod Settling
pub mod Copies
