-- ===== src/InstallCommit.antt =====
-- Removing the old composefs state after a re-base to OSTree:
-- crates/bootc-migrate-core/src/ostree_install_commit.rs, and the command of
-- crates/bootc-rebase/src/commit_command.rs.
pub mod Paths
pub mod Tree
pub mod Var
pub mod Volatile
pub mod Clean
pub mod Carried
pub mod Firmware
pub mod Usage
pub mod Checks
pub mod Plan
pub mod Disk
pub mod Execute
pub mod Command
pub mod Gate
pub mod Committed
pub mod Components
pub mod Apart
pub mod Protected
pub mod Planned
pub mod Deleted
pub mod Mirror
