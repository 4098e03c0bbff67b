-- ===== src/Bridge/Feedback.antt =====
-- crates/sinfonia-bridge/src/feedback: what a CI result does to a ticket and its pull request.
pub mod Attempts
pub mod Categorize
pub mod Transition
pub mod Evaluate
pub mod Cost
pub mod Budget
pub mod Manifest
