-- ===== src/Discovery.antt =====
-- internal/engine: which core facts a discovery resolves, what it disables, and where it looks.
pub mod Run
pub mod Fingerprint
pub mod Comments
pub mod Snapshot
pub mod Cache
pub mod CacheFiles
pub mod CacheGroups
pub mod Plan
pub mod Disabled
pub mod Descriptors
mod Tests
