-- ===== src/Config.antt =====
-- internal/engine/config.go: the sections of a configuration file.
pub mod Section
mod Tests
