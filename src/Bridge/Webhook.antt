-- ===== src/Bridge/Webhook.antt =====
-- crates/sinfonia-bridge/src/webhook: what comes in from GitHub.
pub mod Verify
pub mod Payload
pub mod App
pub mod Handlers
pub mod Examples
