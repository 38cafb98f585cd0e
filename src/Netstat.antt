-- ===== src/Netstat.antt =====
-- lib/kcn_netstat.c: the database of network statistics, which compiles keywords into a query.
mod Defs
pub mod Compile
mod Tests
unfoldable pub use Defs.*
