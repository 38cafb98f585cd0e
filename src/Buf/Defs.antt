-- ===== src/Buf/Defs.antt =====
-- The operations of lib/kcn_buf.c on one buffer, as far as they are plain code.
use kcn.Common.{
  ℕ, ◌+◌, ◌*◌, ◌/◌, ◌%◌, ◌^◌, List, some, none, M, ◌>>=◌, ◌>>◌, pure, gets, modify, assert, leb,
  ltb, if◌then◌else◌, length, get_elem?, set, take, drop, splice, replicate, add_size, sub_size,
}

-- struct kcn_buf_data
pub record BufData : Type 0 where
  pub size : ℕ
  pub sp : ℕ
  pub ep : ℕ
  pub bytes : List ℕ

-- struct kcn_buf, with the data that kb_kbd points to
pub record Buf : Type 0 where
  pub size : ℕ
  pub sp : ℕ
  pub ep : ℕ
  pub bytes : List ℕ
  pub cp : ℕ

-- What malloc returns is not cleared: `bytes` is whatever the block held.
unfoldable pub data_new : List ℕ → BufData
data_new block = record { size = length block; sp = 0; ep = 0; bytes = block }

unfoldable pub init : BufData → Buf
init d = record { size = d.size; sp = d.sp; ep = d.ep; bytes = d.bytes; cp = d.sp }

-- The data that a buffer points to, as later users of the pointer see it.
unfoldable pub kbd : Buf → BufData
kbd b = record { size = b.size; sp = b.sp; ep = b.ep; bytes = b.bytes }

unfoldable pub len : Buf → ℕ
len b = sub_size b.ep b.sp

unfoldable pub reset : ℕ → M Buf (Unit {0})
reset n = modify (λ b. record b { cp = n; sp = n; ep = n })

unfoldable pub headingspace : Buf → ℕ
headingspace b = b.sp

unfoldable pub trailingspace : M Buf ℕ
trailingspace = do assert (λ b. leb b.ep b.size); gets (λ b. sub_size b.size b.ep)

unfoldable pub headingdata : M Buf ℕ
headingdata = do assert (λ b. leb b.sp b.cp); gets (λ b. sub_size b.cp b.sp)

unfoldable pub trailingdata : M Buf ℕ
trailingdata = do assert (λ b. leb b.cp b.ep); gets (λ b. sub_size b.ep b.cp)

unfoldable pub forward : ℕ → M Buf (Unit {0})
unfolding trailingdata
forward n = do
  t ← trailingdata
  assert (λ _. leb n t)
  modify (λ b. record b { cp = add_size b.cp n })

unfoldable pub backward : ℕ → M Buf (Unit {0})
unfolding headingdata
backward n = do
  h ← headingdata
  assert (λ _. leb n h)
  modify (λ b. record b { cp = sub_size b.cp n })

unfoldable pub start : M Buf (Unit {0})
start = modify (λ b. record b { cp = b.sp })

unfoldable pub end : M Buf (Unit {0})
end = modify (λ b. record b { cp = b.ep })

unfoldable pub trim_head : ℕ → M Buf (Unit {0})
unfolding len
trim_head n = do
  assert (λ b. leb n (len b))
  modify (λ b. record b { sp = add_size b.sp n })
  modify (λ b. if ltb b.cp b.sp then record b { cp = b.sp } else b)

-- memcpy and memmove within one block: `n` bytes from position `from` to the position `to`.
unfoldable pub copy_within : ℕ → ℕ → ℕ → List ℕ → List ℕ
copy_within to from n block = splice block to (take n (drop from block))

unfoldable pub realign : M Buf (Unit {0})
unfolding len copy_within
realign = modify (λ b. record b {
  bytes = copy_within 0 b.sp (len b) b.bytes;
  cp = sub_size b.cp b.sp;
  sp = 0;
  ep = len b;
})

unfoldable pub prepend : ℕ → M Buf (Unit {0})
unfolding headingspace
prepend n = do
  assert (λ b. leb n (headingspace b))
  modify (λ b. record b { sp = sub_size b.sp n })
  modify (λ b. record b { cp = b.sp })

-- The part of kcn_buf_append after its early return.
unfoldable pub grow : ℕ → M Buf (Unit {0})
grow n = do modify (λ b. record b { ep = add_size b.ep n }); assert (λ b. leb b.ep b.size)

unfoldable pub append : ℕ → M Buf (Unit {0})
unfolding trailingdata grow
append n = do t ← trailingdata; if leb n t then pure tt else grow (sub_size n t)

-- kb_buf[kb_cp++], read and written
unfoldable pub load_next : M Buf ℕ
load_next b = elim (get_elem? b.bytes b.cp) [
  | none ↦ none
  | some v ↦ some (v, record b { cp = add_size b.cp 1 })
]

unfoldable pub store_next : ℕ → M Buf (Unit {0})
store_next v b =
    if ltb b.cp (length b.bytes)
    then some (tt, record b { bytes = set b.bytes b.cp v; cp = add_size b.cp 1 })
    else none

-- The assertion that opens each `get`.
unfoldable pub need : ℕ → M Buf (Unit {0})
unfolding trailingdata
need n = do t ← trailingdata; assert (λ _. leb n t)

unfoldable pub get8 : M Buf ℕ
get8 = do need 1; load_next

-- The shifted bytes share no bit, so `|` is `+`.
unfoldable pub get16 : M Buf ℕ
get16 = do need 2; a ← load_next; b ← load_next; pure (a * 2 ^ 8 + b)

unfoldable pub get32 : M Buf ℕ
get32 = do
  need 4
  a ← load_next
  b ← load_next
  c ← load_next
  d ← load_next
  pure (a * 2 ^ 24 + b * 2 ^ 16 + c * 2 ^ 8 + d)

unfoldable pub get64 : M Buf ℕ
get64 = do
  need 8
  a ← load_next
  b ← load_next
  c ← load_next
  d ← load_next
  e ← load_next
  f ← load_next
  g ← load_next
  h ← load_next
  pure (a * 2 ^ 56 + b * 2 ^ 48 + c * 2 ^ 40 + d * 2 ^ 32 + e * 2 ^ 24 + f * 2 ^ 16 + g * 2 ^ 8 + h)

-- The parameter is a uint8_t: what a caller passes is cut to eight bits.
unfoldable pub put8 : ℕ → M Buf (Unit {0})
put8 v = do append 1; store_next (v % 256)

unfoldable pub put16 : ℕ → M Buf (Unit {0})
put16 v = do append 2; store_next (v / 2 ^ 8 % 256); store_next (v % 256)

unfoldable pub put32 : ℕ → M Buf (Unit {0})
put32 v = do
  append 4
  store_next (v / 2 ^ 24 % 256)
  store_next (v / 2 ^ 16 % 256)
  store_next (v / 2 ^ 8 % 256)
  store_next (v % 256)

unfoldable pub put64 : ℕ → M Buf (Unit {0})
put64 v = do
  append 8
  store_next (v / 2 ^ 56 % 256)
  store_next (v / 2 ^ 48 % 256)
  store_next (v / 2 ^ 40 % 256)
  store_next (v / 2 ^ 32 % 256)
  store_next (v / 2 ^ 24 % 256)
  store_next (v / 2 ^ 16 % 256)
  store_next (v / 2 ^ 8 % 256)
  store_next (v % 256)

-- memcpy to kb_cp: the target must lie in the block.
unfoldable pub store_block : List ℕ → M Buf (Unit {0})
store_block p b =
    if leb (b.cp + length p) (length b.bytes)
    then some (tt, record b { bytes = splice b.bytes b.cp p })
    else none

-- The caller's `p` with its length `n`: fewer bytes behind `p` than `n` are read out of bounds.
unfoldable pub put : List ℕ → ℕ → M Buf (Unit {0})
put p n = do append n; assert (λ _. leb n (length p)); store_block (take n p); forward n

unfoldable pub putnull : ℕ → M Buf (Unit {0})
putnull n = do append n; store_block (replicate n 0); forward n
