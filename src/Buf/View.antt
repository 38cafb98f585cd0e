-- ===== src/Buf/View.antt =====
-- The invariant of a buffer (lib/kcn_buf.c), and the bytes that it holds as lists.
use kcn.Common.{ℕ, ◌+◌, ◌-◌, ◌≤◌, ◌<◌, ◌^◌, ◌≡◌, List, some, length, take, drop, splice, arith}
use kcn.Buf.Defs.{Buf, trailingdata, headingdata, trailingspace, len}

-- kbd_sp ≤ kb_cp ≤ kbd_ep ≤ kbd_size, and the block has that size: an object is smaller than
-- PTRDIFF_MAX bytes.
pub record IsValid (b : Buf) : Type 0 where
  pub start_le : b.sp ≤ b.cp
  pub cursor_le : b.cp ≤ b.ep
  pub end_le : b.ep ≤ b.size
  pub block_size : length b.bytes ≡ b.size
  pub small : b.size < 2 ^ 63

-- All bytes from kbd_sp to kbd_ep, and those from the cursor on.
abbrev pub held : Buf → List ℕ
held b = take (b.ep - b.sp) (drop b.sp b.bytes)

abbrev pub ahead : Buf → List ℕ
ahead b = take (b.ep - b.cp) (drop b.cp b.bytes)

-- The buffer after `n` bytes are read.
abbrev pub skip : ℕ → Buf → Buf
skip n b = record b { cp = b.cp + n }

-- The buffer after `xs` is written at the cursor: the end moves only if the cursor passes it.
abbrev pub stored : List ℕ → Buf → Buf
stored xs b = record b {
  bytes = splice b.bytes b.cp xs;
  cp = b.cp + length xs;
  ep = Prim.Native.Nat.max b.ep (b.cp + length xs);
}

pub trailingdata_lem : {b : Buf} → IsValid b → trailingdata b ≡ some (b.ep - b.cp, b)
unfolding trailingdata
trailingdata_lem v = ground arith

pub headingdata_lem : {b : Buf} → IsValid b → headingdata b ≡ some (b.cp - b.sp, b)
unfolding headingdata
headingdata_lem v = ground arith

pub trailingspace_lem : {b : Buf} → IsValid b → trailingspace b ≡ some (b.size - b.ep, b)
unfolding trailingspace
trailingspace_lem v = ground arith

pub len_lem : {b : Buf} → IsValid b → len b ≡ b.ep - b.sp
unfolding len
len_lem v = omega arith
