-- ===== src/Bridge.antt =====
-- The companion daemon, crates/sinfonia-bridge.
mod Examples
pub mod Types
pub mod Config
pub mod World
pub mod Store
pub mod Labels
pub mod Merge
pub mod Feedback
pub mod Webhook
pub mod Events
