-- ===== src/Client.antt =====
-- lib/kcn_client.c: the exchange of a query and its responses.
mod Defs
pub mod Exchange
pub mod Search
pub mod Life
mod Tests
unfoldable pub use Defs.*
