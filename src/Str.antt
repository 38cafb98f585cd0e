-- ===== src/Str.antt =====
-- lib/kcn_str.c: numbers and hashes of strings.
mod Defs
pub mod Number
pub mod Hash
mod Tests
unfoldable pub use Defs.*
