-- ===== src/Kernel.antt =====
-- The kernel command line of a migrated host: crates/bootc-migrate-core/src/composefs_karg.rs, and
-- migration/kernel_options.rs with the arguments that it builds.
pub mod Karg
pub mod Options
pub mod Plain
pub mod Lvm
pub mod Booted
