-- ===== src/Networking.antt =====
-- internal/engine/networking.go: what is read of networks on Linux.
pub mod Dhclient
pub mod Leases
pub mod Routes
mod Tests
