-- ===== src/Daemon.antt =====
-- The daemon, crates/sinfonia.
mod Examples
pub mod Config
pub mod Orchestrator
pub mod Workspace
pub mod Http
