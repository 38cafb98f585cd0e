-- ===== src/Registry.antt =====
-- lib/kcn_db.c: the databases that a search can ask, in a list ordered by priority.
mod Defs
pub mod Order
pub mod Match
mod Tests
unfoldable pub use Defs.*
