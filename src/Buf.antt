-- ===== src/Buf.antt =====
-- lib/kcn_buf.h and lib/kcn_buf.c: a buffer is a block of memory with the positions of its start
-- (kbd_sp), its end (kbd_ep) and a cursor (kb_cp). The record joins a struct kcn_buf with the
-- struct kcn_buf_data that it points to. The modules below prove what the operations do.
mod Defs
pub mod View
pub mod Store
pub mod Load
pub mod Cursor
mod Io
pub mod Queue
pub mod Fifo
pub mod Transfer
mod Tests
unfoldable pub use Defs.*
unfoldable pub use Io.*
