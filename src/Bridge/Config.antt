-- ===== src/Bridge/Config.antt =====
-- crates/sinfonia-bridge/src/config.rs: how BRIDGE.md becomes a configuration. `Sections` has the
-- parsers of the sections, `Document` the split of the file and the whole. Of other packages are the
-- parameters: YAML, the environment, Unicode's lower case, compiled patterns, URLs, the home directory.
pub mod Defaults
pub mod Sections
pub mod Validate
pub mod Document
pub mod Examples
