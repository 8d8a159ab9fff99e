-- ===== src/FirstbootRepair.antt =====
-- The first-boot repair of firstboot_repair.rs.
pub mod Signed
pub mod Records
pub mod Roundtrip
pub mod Ownership
pub mod Laws
pub mod Steps
pub mod Cache
pub mod Restored
pub mod Pass
pub mod Bounds
pub mod Again
pub mod Classes
