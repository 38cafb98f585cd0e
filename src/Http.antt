-- ===== src/Http.antt =====
-- lib/kcn_http.c: the body of a response, over libcurl.
mod Defs
pub mod Response
mod Tests
unfoldable pub use Defs.*
