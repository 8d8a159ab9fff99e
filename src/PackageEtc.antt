-- ===== src/PackageEtc.antt =====
-- The identity merge of package_etc.rs.
pub mod Accounts
pub mod Ids
pub mod Explicit
pub mod Identity
pub mod Merge
pub mod Free
pub mod Apart
pub mod Final
pub mod Inventory
pub mod Evidence
pub mod Total
pub mod Written
pub mod Output
