-- ===== src/Msg.antt =====
-- lib/kcn_msg.h and lib/kcn_msg.c: the messages between clients and the database server. Enums are
-- the numbers that go over the wire. The calls of kcn_buf_dump, which only log, are left out.
mod Defs
pub mod Encode
pub mod Bodies
pub mod Receive
pub mod Valid
pub mod Fields
pub mod RoundTrip
mod Tests
unfoldable pub use Defs.*
