-- ===== src/Daemon/Http.antt =====
-- crates/sinfonia/src/http: the HTTP surface of the daemon.
pub mod Events
mod Examples
