-- ===== src/Google.antt =====
-- lib/kcn_google.c: the database that asks a search engine over HTTP.
mod Defs
pub mod One
pub mod Request
pub mod Pages
mod Tests
unfoldable pub use Defs.*
