-- ===== src/Server.antt =====
-- kcndbd/kcndb_server.c: the messages that a client sends to the server.
mod Defs
pub mod Responses
pub mod Queries
pub mod Session
pub mod Threads
pub mod Start
pub mod Requests
pub mod Answers
mod Tests
unfoldable pub use Defs.*
