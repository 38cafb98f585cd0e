-- ===== src/Db/Storing.antt =====
-- kcndb_db_record_add on a table that holds records (kcndbd/kcndb_db.c).
pub mod Last
pub mod Put
pub mod State
pub mod Store
pub mod Answers
pub mod Opening
mod Tests
