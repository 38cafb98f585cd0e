-- ===== src/Info.antt =====
-- lib/kcn_info.c: what a search asks for and the locators that it has found.
mod Defs
pub mod Locs
mod Tests
unfoldable pub use Defs.*
