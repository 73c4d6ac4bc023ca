-- ===== src/Config.antt =====
-- config/config.go: the startup configuration. A role or a mode is any text, as in the source.
pub mod Names
pub mod Tracing
pub mod Validate
pub mod Load
pub mod Laws
