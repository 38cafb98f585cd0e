-- ===== src/Ctl.antt =====
-- kcndbctl/kcndbctl_file.c and kcndbctl/kcndbctl_msg.c: measurements from a file or a command line are
-- sent to the database.
mod Defs
pub mod Fields
mod Tests
unfoldable pub use Defs.*
