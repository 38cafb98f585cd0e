-- ===== src/Sockets.antt =====
-- lib/kcn_socket.c and lib/kcn_sockaddr.c: sockets and their addresses, as configured on Linux with IPv6.
mod Defs
pub mod Names
pub mod Owner
mod Tests
unfoldable pub use Defs.*
