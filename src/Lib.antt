-- ===== src/Lib.antt =====
-- bootc-migrate: the logic that decides what a migration does to a host's files, accounts and
-- boot entries. The program moves a host from one image-based backend to another (or onto one from a
-- package-managed system) and carries `/etc`, the account ids, the kernel command line and the UEFI
-- boot entries along; a commit later removes what the old backend left.
--
-- Parts, and the files that model them (sources are under crates/bootc-migrate-core/src):
--
--   * Etc: the merge of `/etc`, mergetc.rs and etc_conflict.rs.
--     - Etc/Tree is a directory as the walk sees it: its files and symlinks by relative path, with
--       `read_file_at`, `collect_relative_entries` and the writes.
--     - Etc/Merge is `merge_etc_files_with_policy`; `merge_path` is the body of its loop, and
--       `merge_etc_files` and `merge_etc_files_with_overrides` call it as the code does.
--     - Etc/Identity is `merge_identity_db` and `union_by_first_field`, which the merge calls for
--       passwd, shadow, group and the like.
--     - Etc/Drift is `diff_etc_factory_vs_live`, the default manifest and `etc_path_states`.
--     - Etc/Symlinks is `logical_symlink_target`, `on_disk_location` and `prune_recursive`.
--     - Etc/Conflict is the pass that runs on the staged `/etc` after ostree's native merge, if the
--       target is of another base: `classify`, `plan_etc_conflicts`, `apply_etc_conflict_plan`.
--   * Remap: remap.rs. Remap/Accounts parses the tables, Remap/Plan makes the plan and its chown
--     steps, and Remap/Apply runs them over files.
--   * BootCleanup: boot_audit.rs (BootCleanup/Audit, with the rollback markers of
--     migration/rollback.rs) and boot_cleanup/plan.rs (BootCleanup/Plan for the cleanup,
--     BootCleanup/Restore for the restore and the boot order). The plan reads the audit's flags.
--     BootCleanup/Rollback is the boot order of a rollback, of migration/rollback.rs.
--   * Routes: the transition table and the pipelines of rebase_plan.rs.
--   * Kernel: the command line of the new boot entry. Kernel/Karg is composefs_karg.rs and the digests
--     of types.rs; Kernel/Options is migration/kernel_options.rs with the mount argument of
--     migration/var_layout.rs. What findmnt, lvs and blkid print is a parameter.
--   * InstallCommit: ostree_install_commit.rs and crates/bootc-rebase/src/commit_command.rs.
--     - InstallCommit/Paths has the tests on paths, mounts and the command line.
--     - InstallCommit/Tree is a directory tree with what `lstat` reports; InstallCommit/Var is
--       `diff_var` over it, and InstallCommit/Usage is `tree_usage`.
--     - InstallCommit/Checks has the checks of `plan` over what the read-only calls return, and
--       InstallCommit/Firmware reads the output of efibootmgr for them; InstallCommit/Plan is
--       `plan_targets`, `plan` and `blocking`.
--     - InstallCommit/Execute is `mirror_forensics`, the deletions, the prune and `execute`, over the
--       calls of InstallCommit/Disk; InstallCommit/Command is the gate of the command, the remount
--       and `run`. A stack of directories is recursion over the tree, in the order of the stack.
--   * Lifecycle: the run lock of migration/lifecycle.rs. Lifecycle/Holder is the record of the holder
--     and its parser; Lifecycle/Steps has one step for each call on the lock file, with the contents
--     of the file and the place at which the run writes, in any order that the runs of the program can
--     make them, a run's death included.
--   * CrossFamily: the `/etc` policy of cross_family.rs (`is_carried_over`, `plan_etc`, `overrides`).
--   * PackageEtc: package_etc.rs. PackageEtc/Inventory is `classify`, `plan_etc` and the overrides, made
--     of the policy of CrossFamily; the states of a plan have distinct paths. PackageEtc/Accounts reads
--     the tables, PackageEtc/Ids hands out ids, PackageEtc/Identity has the loops of `merge_identity`
--     and PackageEtc/Merge composes them. PackageEtc/Written is about the lines of
--     the carried users. PackageEtc/Output reads what the package managers print of
--     `/etc` and rewrites the fstab. PackageEtc/Explicit is `plan_explicit` of remap.rs, which
--     makes the steps with the functions of Remap.
--   * FirstbootRepair: firstboot_repair.rs. FirstbootRepair/Records is the identity manifest, as bytes,
--     with the numbers of FirstbootRepair/Signed; FirstbootRepair/Ownership is `repair_ownership` over
--     the calls of the operating system, with the verdict on the last parent that the loop keeps. What
--     the theorems rely on in those calls is in FirstbootRepair/Laws: an entry is an inode, a call
--     changes the metadata of one inode and no resolution of a path, and a call that fails changes
--     nothing. FirstbootRepair/Classes has the class names, the skip lists, the machine id and the
--     login users. A path is the list of its components there.
--   * Prelude and Text are shared: lists, results, and strings as lists of code points with the
--     operations of Rust's standard library that the code calls.
--   * Tests has inputs on which the definitions are run and the theorems are instantiated.
--
-- State and errors: an output directory is an association list from paths to leaves, passed from
-- step to step; `?` is `>>=` on Result. The file system is a parameter: `fails` says at which paths a
-- write or a removal is refused, `exists` what a lookup finds, `refuses` of a file whether its chown
-- is rejected. Where a leaf stands in the way of a directory, or a file would be written through a
-- symlink, the model stops with `blocked`, so a theorem on a merge that succeeds is about no such
-- merge. In the conflict pass too a tree has what the walk lists, so a path below a
-- symlink to a directory, or below a file, is absent. A tree is read without errors there, and the mode and the extended attributes of a file are
-- one value. A commit passes the state of the disk from call to call and returns it with the result,
-- also with an error; a directory that cannot be listed is `closed`. The paths that a commit names
-- itself are taken to be no symbolic links.
--
-- Bounds: the ids of accounts are u32. `parse_u32` rejects what does not fit. `next_free` runs on
-- fuel of one more than the largest id in use, which passes every id in use; scratch ids start at
-- 60000, and the wrap-around that 2^32 ids would lead to is not modelled. `next_free_id` adds with
-- saturation, on fuel of one more than the number of ids in use: the program's loop does not end where
-- no id up to the largest u32 is free, and the theorems on it ask for room. The sizes of a commit are u64 sums that wrap around. All other loops are structural recursion.
--
-- Not modelled: reports, JSON and error texts, the calls of system tools (efibootmgr, bootc, ostree,
-- podman, systemd, rpm, dpkg, pacman, flatpak, restorecon), what a commit prints and the contents of its record, the detection of a dedicated
-- `/var`, the units of the first boot, the transaction, the sleep inhibitor, the package and application mapping, the installation
-- paths, preflight checks and the terminal interface.
pub mod Prelude
pub mod Text
pub mod Etc
pub mod CrossFamily
pub mod PackageEtc
pub mod Remap
pub mod BootCleanup
pub mod Routes
pub mod Kernel
pub mod InstallCommit
pub mod Lifecycle
pub mod FirstbootRepair
pub mod Tests
