-- ===== src/BootCleanup.antt =====
-- UEFI boot entries: the audit (crates/bootc-migrate-core/src/boot_audit.rs) and the plans made
-- from it (crates/bootc-migrate-core/src/boot_cleanup/plan.rs).
pub mod Audit
pub mod Plan
pub mod Restore
pub mod Rounds
pub mod Safety
pub mod Survival
pub mod Preselection
pub mod Order
pub mod Rollback
pub mod Fields
pub mod Branding
