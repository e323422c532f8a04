-- ===== src/External.antt =====
-- internal/engine/external.go: external facts, from the environment and from files.
pub mod Env
pub mod Values
pub mod Lines
pub mod Buffer
pub mod Files
pub mod Commands
pub mod Loader
mod Tests
