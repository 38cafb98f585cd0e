-- ===== src/Token.antt =====
-- lib/kcn_token.c: the tokens of a line.
mod Defs
pub mod Split
mod Tests
unfoldable pub use Defs.*
