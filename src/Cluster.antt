-- ===== src/Cluster.antt =====
-- The two controllers together, over an API server that keeps what is written to it.
pub mod Ledger
pub mod Server
pub mod Readiness
pub mod Backend
pub mod TearDown
pub mod Answers
pub mod Claims
pub mod Pools
pub mod Reach
pub mod Census
pub mod Limit
pub mod Work
