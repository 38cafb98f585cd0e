-- ===== src/Buf/Cursor.antt =====
-- The operations of lib/kcn_buf.c that move the positions of a buffer: what they keep and change.
use kcn.Common.{
  ℕ, ◌+◌, ◌-◌, ◌≤◌, ◌<◌, ◌≡◌, refl, ◌∙◌, some, none, length, drop, splice, arith, length-splice,
  length-take, length-drop, sym, drop-drop, drop-take, splice-front, take-append_left,
}
use native.Mathlib.Nat.{sub-zero}
use kcn.Buf.Defs.{Buf, reset, forward, backward, trim_head, realign, prepend}
use kcn.Buf.View.{IsValid, held, ahead, skip}

pub reset_lem :
    (n : ℕ) {b : Buf}
    → IsValid b
    → n ≤ b.size
    → (reset n b ≡ some (tt, record b { cp = n; sp = n; ep = n }))
      × IsValid (record b { cp = n; sp = n; ep = n })
unfolding reset
reset_lem n v h = (refl, omega arith)

pub forward_lem :
    (n : ℕ) {b : Buf} → IsValid b → b.cp + n ≤ b.ep → forward n b ≡ some (tt, skip n b)
unfolding forward
forward_lem n v h = ground arith

pub forward_past : (n : ℕ) {b : Buf} → IsValid b → b.ep < b.cp + n → forward n b ≡ none
unfolding forward
forward_past n v h = ground arith

pub backward_lem :
    (n : ℕ) {b : Buf}
    → IsValid b
    → b.sp + n ≤ b.cp
    → backward n b ≡ some (tt, record b { cp = b.cp - n })
unfolding backward
backward_lem n v h = ground arith

pub prepend_lem :
    (n : ℕ) {b : Buf}
    → IsValid b
    → n ≤ b.sp
    → prepend n b ≡ some (tt, record b { sp = b.sp - n; cp = b.sp - n })
unfolding prepend
prepend_lem n v h = ground arith

-- `trim_head` where the cursor has passed the new start, as after a read message.
abbrev pub trimmed : ℕ → Buf → Buf
trimmed n b = record b { sp = b.sp + n; cp = Prim.Native.Nat.max b.cp (b.sp + n) }

pub trim_head-trimmed :
    (n : ℕ) {b : Buf}
    → IsValid b
    → b.sp + n ≤ b.ep
    → (trim_head n b ≡ some (tt, trimmed n b)) × IsValid (trimmed n b)
unfolding trim_head
trim_head-trimmed n v h = (ground arith, omega arith)

pub trim_head_past : (n : ℕ) {b : Buf} → IsValid b → b.ep < b.sp + n → trim_head n b ≡ none
unfolding trim_head
trim_head_past n v h = ground arith

-- The bytes ahead are a tail of those that are held.
pub ahead-held : {b : Buf} → IsValid b → ahead b ≡ drop (b.cp - b.sp) (held b)
ahead-held {b} v =
    let e : b.sp + (b.cp - b.sp) ≡ b.cp = omega arith in
    let f : b.ep - b.sp - (b.cp - b.sp) ≡ b.ep - b.cp = omega arith in
    rw (drop-take, drop-drop, e, f)

pub length-held : {b : Buf} → IsValid b → length (held b) ≡ b.ep - b.sp
length-held {b} v =
    omega (arith, length-take (b.ep - b.sp) (drop b.sp b.bytes), length-drop b.sp b.bytes)

-- Dropping bytes at the head leaves the others.
pub held-trimmed : (n : ℕ) {b : Buf} → IsValid b → held (trimmed n b) ≡ drop n (held b)
held-trimmed n {b} v =
    let f : b.ep - (b.sp + n) ≡ b.ep - b.sp - n = omega arith in rw (drop-take, drop-drop, f)

realigned : Buf → Buf
realigned b = record b {
  bytes = splice b.bytes 0 (held b);
  cp = b.cp - b.sp;
  sp = 0;
  ep = b.ep - b.sp;
}

realign-realigned : {b : Buf} → IsValid b → realign b ≡ some (tt, realigned b)
unfolding realign realigned
realign-realigned v = ground arith

held-realigned : {b : Buf} → IsValid b → held (realigned b) ≡ held b
unfolding realigned
held-realigned {b} v =
    let e : b.ep - b.sp - 0 ≡ length (held b) = omega (arith, length-held v) in
    rw (splice-front (held b) b.bytes (omega (arith, length-held v)), e, take-append_left)

realigned-IsValid : {b : Buf} → IsValid b → IsValid (realigned b)
unfolding realigned
realigned-IsValid {b} v = omega (arith, length-splice b.bytes 0 (held b))

ahead-realigned : {b : Buf} → IsValid b → ahead (realigned b) ≡ ahead b
unfolding realigned
ahead-realigned v =
    ahead-held (realigned-IsValid v) ∙ rw (held-realigned v, sub-zero) (sym (ahead-held v))

-- Moving the data of a valid buffer to the front of its block always succeeds and keeps it valid.
-- It changes neither the bytes held nor those ahead of the cursor, and leaves no space before them.
pub realign_lem :
    {b : Buf}
    → IsValid b
    → (b' : Buf) × (realign b ≡ some (tt, b'))
      × IsValid b'
      × (held b' ≡ held b)
      × (ahead b' ≡ ahead b)
      × (b'.sp ≡ 0)
      × (b'.size ≡ b.size)
unfolding realigned
realign_lem {b} v = (
  realigned b,
  realign-realigned v,
  realigned-IsValid v,
  held-realigned v,
  ahead-realigned v,
  refl,
  refl,
)
