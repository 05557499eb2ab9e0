-- ===== src/Orchestration.antt =====
-- src/diskless/orchestration.
pub mod Lock
pub mod Host
pub mod PrivClient
pub mod Session
pub mod Lifecycle
