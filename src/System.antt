-- ===== src/System.antt =====
-- The daemon and the bridge together: what the one sends, the other counts.
pub mod Channel
mod Examples
