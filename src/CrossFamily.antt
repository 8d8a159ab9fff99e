-- ===== src/CrossFamily.antt =====
-- The `/etc` policy of cross_family.rs (crates/bootc-migrate-core/src).
pub mod Policy
pub mod Carried
