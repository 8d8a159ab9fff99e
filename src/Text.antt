-- ===== src/Text.antt =====
-- The `str` functions of Rust's standard library that the program calls.
mod Defs
mod Numbers
mod Laws
unfoldable pub use Defs.*
unfoldable pub use Numbers.*
pub mod Fields
pub mod Words
pub mod Decimal
pub use Laws.*
