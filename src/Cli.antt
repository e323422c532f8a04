-- ===== src/Cli.antt =====
-- internal/cli: the options of the command line, their preparation and their validation.
pub mod Table
pub mod Options
pub mod Arguments
pub mod Validation
mod Tests
