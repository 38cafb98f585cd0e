-- ===== src/Uri.antt =====
-- lib/kcn_uri.c: an URI to which parameters are added.
mod Defs
pub mod Encoding
mod Tests
unfoldable pub use Defs.*
