-- ===== src/Programs.antt =====
-- The programs: key2loc/main.c, kcndbd/kcndb_main.c and kcndbctl/kcndbctl_main.c.
mod Options
pub mod Kcndbd
pub mod Kcndbctl
pub mod Key2loc
pub mod Resolution
pub mod Searches
mod Tests
unfoldable pub use Options.*
