-- ===== src/File.antt =====
-- kcndbd/kcndb_file.c: a file of the database behind its buffer.
mod Defs
pub mod Fill
pub mod Reading
pub mod Whole
pub mod Overwrite
pub mod Writing
mod Tests
unfoldable pub use Defs.*
