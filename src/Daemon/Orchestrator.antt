-- ===== src/Daemon/Orchestrator.antt =====
-- The orchestrator, crates/sinfonia/src/orchestrator.
pub mod Dispatch
pub mod Effects
pub mod Retries
pub mod Core
pub mod Tick
pub mod AgentEvents
pub mod History
pub mod Snapshot
pub mod Runner
