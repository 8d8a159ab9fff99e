-- ===== src/Tests.antt =====
-- Tests of the models and instances of their theorems, on small concrete inputs.
mod Etc
mod FirstbootRepair
mod PackageEtc
mod Symlinks
mod Conflict
mod Remap
mod BootCleanup
mod Routes
mod Kernel
mod SmallDisk
mod InstallCommit
mod Lifecycle
