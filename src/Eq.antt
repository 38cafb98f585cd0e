-- ===== src/Eq.antt =====
-- lib/kcn_eq.h and lib/kcn_eq.c: a query condition, its words and its time window.
mod Defs
pub mod Words
pub mod Window
mod Tests
unfoldable pub use Defs.*
