-- ===== src/Etc.antt =====
-- The `/etc` merge (crates/bootc-migrate-core/src/mergetc.rs) and the cross-base conflict pass
-- (crates/bootc-migrate-core/src/etc_conflict.rs).
pub mod Tree
pub mod Identity
pub mod Merge
pub mod Drift
pub mod Symlinks
pub mod Conflict
