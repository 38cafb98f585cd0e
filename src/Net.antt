-- ===== src/Net.antt =====
-- lib/kcn_net.c: a connection over the event library.
mod Defs
mod Io
pub mod Sound
pub mod States
mod Checks
pub mod Waiting
pub mod Drain
pub mod Steps
pub mod Receive
pub mod Creation
pub mod Life
pub mod Ready
mod Tests
unfoldable pub use Defs.*
unfoldable pub use Io.*
