-- ===== src/Format.antt =====
-- internal/engine/formatter.go: the output formats of a projection.
pub mod Plain
pub mod Yaml
pub mod Hocon
pub mod Legacy
mod Tests
