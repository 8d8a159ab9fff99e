-- ===== src/Remap.antt =====
-- Cross-base UID and GID remaps (crates/bootc-migrate-core/src/remap.rs).
pub mod Accounts
pub mod Plan
pub mod Apply
pub mod Steps
pub mod Entries
pub mod Files
