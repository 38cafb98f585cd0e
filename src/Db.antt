-- ===== src/Db.antt =====
-- kcndbd/kcndb_db.c: the tables of measurements and of the locators that they name.
pub mod Defs
mod Locators
mod Records
mod Array
unfoldable pub use Defs.*
unfoldable pub use Locators.*
pub mod Keeps
pub mod Locks
pub mod Reading
pub mod Lookup
pub mod Chains
pub mod Selection
pub mod Matches
pub mod Rounds
pub mod Search
pub mod Storing
mod Tests
unfoldable pub use Records.*
unfoldable pub use Array.*
