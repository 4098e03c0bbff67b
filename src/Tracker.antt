-- ===== src/Tracker.antt =====
-- What daemon and bridge share of the trackers, crates/sinfonia-tracker.
pub mod Config
pub mod Marker
