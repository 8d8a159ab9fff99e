-- ===== src/Lifecycle.antt =====
-- The run lock: crates/bootc-migrate-core/src/migration/lifecycle.rs.
pub mod Holder
pub mod Steps
