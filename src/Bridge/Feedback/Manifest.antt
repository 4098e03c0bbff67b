-- ===== src/Bridge/Feedback/Manifest.antt =====
-- crates/sinfonia-bridge/src/feedback/manifest.rs: the manifest bridge.json of a failed run. `Shape` reads
-- it, `Fetch` finds it, `Digest` renders it.
pub mod Shape
pub mod Glob
pub mod Fetch
pub mod Digest
pub mod Matches
pub mod Accepts
pub mod Bounds
mod Examples
