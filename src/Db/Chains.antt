-- ===== src/Db/Chains.antt =====
-- The file of locators of kcndbd/kcndb_db.c: a table of offsets by hash value, each the head of a chain
-- of locators, and what kcndb_db_loc_add and kcndb_db_loc_lookup do on it.
pub mod Append
pub mod Slots
pub mod Walk
pub mod Follow
pub mod Add
pub mod Naming
mod Tests
