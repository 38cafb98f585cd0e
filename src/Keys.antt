-- ===== src/Keys.antt =====
-- lib/kcn.c: the keys of a search as one string.
mod Defs
pub mod RoundTrip
mod Tests
unfoldable pub use Defs.*
