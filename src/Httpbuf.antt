-- ===== src/Httpbuf.antt =====
-- lib/kcn_httpbuf.c: the bytes of a response that have arrived.
mod Defs
pub mod Append
mod Tests
unfoldable pub use Defs.*
