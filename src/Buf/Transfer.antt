-- ===== src/Buf/Transfer.antt =====
-- What kcn_buf_read and kcn_buf_write do with the answers of the system calls (lib/kcn_buf.c).
use kcn.Common.{
  ℕ, ◌+◌, ◌-◌, ◌≤◌, ◌<◌, ◌≡◌, ◌≢◌, refl, ap, ◌∙◌, List, [], ◌∷◌, ◌++◌, some, none, true, false,
  Option, sym, length, take, drop, splice, arith, slice-splice, take-nil, length-take,
  length-splice, eintr, ◌>>=◌, ◌>>◌, Bool-cases, ◌==◌, inl, inr, if◌then◌else◌, min,
}
use kcn.Buf.Defs.{Buf, append, trailingdata}
use kcn.Buf.View.{IsValid, held, ahead, trailingspace_lem, len_lem}
use kcn.Buf.Cursor.{realign_lem, length-held, trimmed, trim_head-trimmed, held-trimmed}
use kcn.Buf.Io.{
  ReadResult, WriteResult, read_error, write_error, read_loop, write_loop, has_room, make_room,
  take_in, read, give_out, write,
}

-- A full block: no room is left even at the front.
abbrev pub HasRoom : Buf → Type 0
HasRoom b = b.ep - b.sp < b.size

-- The buffer when `xs` has arrived at its end.
arrived : List ℕ → Buf → Buf
arrived xs b = record b { bytes = splice b.bytes b.ep xs; ep = b.ep + length xs }

arrived-IsValid :
    (xs : List ℕ) {b : Buf} → IsValid b → b.ep + length xs ≤ b.size → IsValid (arrived xs b)
unfolding arrived
arrived-IsValid xs {b} v h = omega (arith, length-splice b.bytes b.ep xs)

-- What a call of read() has put into a space of `n` bytes.
abbrev pub received : ℕ → ReadResult → List ℕ
received n (ReadResult.got xs) = take n xs
received n (ReadResult.failed e) = []

-- What has arrived stands behind what was held.
arrived-lists :
    (xs : List ℕ) {b : Buf}
    → IsValid b
    → b.ep + length xs ≤ b.size
    → (held (arrived xs b) ≡ held b ++ xs) × (ahead (arrived xs b) ≡ ahead b ++ xs)
unfolding arrived
arrived-lists xs {b} v h = (
  slice-splice b.bytes b.sp b.ep xs (omega arith) (omega arith),
  slice-splice b.bytes b.cp b.ep xs (omega arith) (omega arith),
)

append-arrived :
    (xs : List ℕ) {b : Buf}
    → IsValid b
    → b.ep + length xs ≤ b.size
    → append (b.ep - b.cp + length xs) (record b { bytes = splice b.bytes b.ep xs })
      ≡ some (tt, arrived xs b)
unfolding append arrived
append-arrived xs {b} v h = ground arith

trailingdata_written :
    (xs : List ℕ) {b : Buf}
    → IsValid b
    → trailingdata (record b { bytes = splice b.bytes b.ep xs })
      ≡ some (b.ep - b.cp, record b { bytes = splice b.bytes b.ep xs })
unfolding trailingdata
trailingdata_written xs v = ground arith

take_in_lem :
    (r : ReadResult) {b : Buf}
    → IsValid b
    → take_in r b ≡ some (read_error r, arrived (received (b.size - b.ep) r) b)
unfolding take_in read_error
take_in_lem (ReadResult.failed e) v = unfold arrived in ground arith
take_in_lem (ReadResult.got []) v = rw take-nil (unfold arrived in ground arith)
take_in_lem (ReadResult.got (x ∷ xs)) {b} v =
    let ys = take (b.size - b.ep) (x ∷ xs) in
    let h : b.ep + length ys ≤ b.size = omega (arith, length-take (b.size - b.ep) (x ∷ xs)) in
    rw (trailingspace_lem v, ◌>>=◌, trailingdata_written ys v, ◌>>=◌, ◌>>◌, append-arrived ys v h)

-- The space that a call of read() gets: what is behind the data, or what was before it too.
abbrev pub space : Buf → ℕ
space b = if b.ep == b.size then b.size - (b.ep - b.sp) else b.size - b.ep

has_room_lem : {b : Buf} → IsValid b → b.ep < b.size → has_room b ≡ some (tt, b)
unfolding has_room
has_room_lem v h = ground (arith, trailingspace_lem v)

has_room_full : {b : Buf} → IsValid b → b.ep ≡ b.size → has_room b ≡ none
unfolding has_room
has_room_full v h = ground (arith, trailingspace_lem v)

fits : (r : ReadResult) (n k m : ℕ) → k + n ≤ m → k + length (received n r) ≤ m
fits (ReadResult.got xs) n k m h = omega (arith, length-take n xs)
fits (ReadResult.failed e) n k m h = omega arith

make_room_lem :
    {b : Buf}
    → IsValid b
    → HasRoom b
    → (b' : Buf) × (make_room b ≡ some (tt, b'))
      × IsValid b'
      × (held b' ≡ held b)
      × (ahead b' ≡ ahead b)
      × (b'.size - b'.ep ≡ space b)
      × (0 < space b)
      × (b'.size ≡ b.size)
unfolding make_room
make_room_lem {b} v h = elim (Bool-cases (b.size - b.ep == 0)) [
  | inl full ↦
      let (c, r, w, hh, aa, z, sz) = realign_lem v in
      let n : c.ep ≡ b.ep - b.sp =
        omega (arith, length-held w, length-held v, ap (λ (l : List ℕ). length l) hh) in
      (
        c,
        rw (trailingspace_lem v, ◌>>=◌, full, r, ◌>>◌, has_room_lem w (omega arith)),
        w,
        hh,
        aa,
        ground arith,
        ground arith,
        sz,
      )
  | inr free ↦
      (b, rw (trailingspace_lem v, ◌>>=◌, free), v, refl, refl, ground arith, ground arith, refl)
]

-- The start of the data in a result.
abbrev start_of : {A : Type 0} → ℕ → Option (A × Buf) → ℕ
start_of n none = n
start_of n (some (a, b)) = b.sp

-- The data is moved only where no room is left behind it.
pub read_start :
    (rs : List ReadResult) (x : ℕ × List ReadResult) {b b' : Buf}
    → IsValid b
    → b.ep < b.size
    → read rs b ≡ some (x, b')
    → b'.sp ≡ b.sp
unfolding read make_room arrived
read_start rs x {b} {b'} v h e =
    let free : (b.size - b.ep == 0) ≡ false = ground arith in
    let r = (read_loop rs).0 in
    let y : read rs b
        ≡ some ((read_error r, (read_loop rs).1), arrived (received (b.size - b.ep) r) b) =
      rw (trailingspace_lem v, ◌>>=◌, ◌>>◌, free, take_in_lem r v) refl in
    sym (ap (λ o. start_of 0 o) (sym y ∙ e))

-- What read does, on every answer of the system: in a valid buffer that is not full a call gets
-- some space, and what it takes from the descriptor is added behind the bytes held and the bytes
-- ahead of the cursor, both unchanged before it. The result is 0 for data, ESHUTDOWN at the end of
-- the input, or the error of the call. The block keeps its size.
pub read_lem :
    (rs : List ReadResult) {b : Buf}
    → IsValid b
    → HasRoom b
    → (b' : Buf) × (read rs b ≡ some ((read_error (read_loop rs).0, (read_loop rs).1), b'))
      × IsValid b'
      × (held b' ≡ held b ++ received (space b) (read_loop rs).0)
      × (ahead b' ≡ ahead b ++ received (space b) (read_loop rs).0)
      × (0 < space b)
      × (b'.size ≡ b.size)
unfolding read arrived
read_lem rs {b} v h =
    let (c, m, w, hh, aa, n, p, sz) = make_room_lem v h in
    let r = (read_loop rs).0 in
    let xs = received (c.size - c.ep) r in
    let k : c.ep + length xs ≤ c.size = fits r (c.size - c.ep) c.ep c.size (omega arith) in
    let (x, y) = arrived-lists xs w k in
    (
      arrived xs c,
      rw (m, ◌>>◌, take_in_lem r w, ◌>>=◌),
      arrived-IsValid xs w k,
      x ∙ rw (n, hh),
      y ∙ rw (n, aa),
      p,
      sz,
    )

-- A buffer whose data fills its block aborts at the assertion of kcn_buf_read.
pub read_aborts :
    (rs : List ReadResult) {b : Buf} → IsValid b → b.ep - b.sp ≡ b.size → read rs b ≡ none
unfolding read make_room
read_aborts rs {b} v h =
    let (c, r, w, hh, aa, z, sz) = realign_lem v in
    let n : c.ep ≡ b.ep - b.sp =
      omega (arith, length-held w, length-held v, ap (λ (l : List ℕ). length l) hh) in
    let full : (b.size - b.ep == 0) ≡ true = ground arith in
    rw (trailingspace_lem v, ◌>>=◌, full, r, ◌>>◌, has_room_full w (omega arith))

-- How many of `n` bytes offered a call of write() has taken.
abbrev pub sent : ℕ → WriteResult → ℕ
sent n (WriteResult.wrote m) = min m n
sent n (WriteResult.failed e) = 0

give_out_lem :
    (r : WriteResult) {b : Buf}
    → IsValid b
    → (b' : Buf) × (give_out r b ≡ some (write_error r, b'))
      × IsValid b'
      × (held b' ≡ drop (sent (b.ep - b.sp) r) (held b))
      × (b'.cp - b'.sp ≤ b.cp - b.sp)
unfolding give_out write_error
give_out_lem (WriteResult.failed e) {b} v = (b, refl, v, refl, omega arith)
give_out_lem (WriteResult.wrote n) {b} v = elim (Bool-cases (n == 0)) [
  | inl nothing ↦
      let e : min n (b.ep - b.sp) ≡ 0 = ground arith in (b, rw nothing, v, rw e, omega arith)
  | inr some_bytes ↦
      let m = min n (b.ep - b.sp) in
      let (t, w) = trim_head-trimmed m v (omega arith) in
      (trimmed m b, rw (some_bytes, len_lem v, ◌>>◌, t), w, held-trimmed m v, omega arith)
]

-- What write does, on every answer of the system: the bytes that the call took are gone from the
-- head of the data, and the others are still held in order. The result is 0, ESHUTDOWN where the
-- call took nothing, or the error of the call. The cursor is no further behind the start of the data.
pub write_lem :
    (rs : List WriteResult) {b : Buf}
    → IsValid b
    → (b' : Buf) × (write rs b ≡ some ((write_error (write_loop rs).0, (write_loop rs).1), b'))
      × IsValid b'
      × (held b' ≡ drop (sent (b.ep - b.sp) (write_loop rs).0) (held b))
      × (b'.cp - b'.sp ≤ b.cp - b.sp)
unfolding write
write_lem rs v =
    let (c, e, w, h, k) = give_out_lem (write_loop rs).0 v in (c, rw (e, ◌>>=◌), w, h, k)

read_retries : (rs : List ReadResult) → read_error (read_loop rs).0 ≢ eintr
unfolding read_loop
read_retries [] = omega arith
read_retries (r ∷ rs) = elim (Bool-cases (read_error r == eintr)) [
  | inl again ↦ rw again (read_retries rs)
  | inr done ↦ rw done (ground arith)
]

write_retries : (rs : List WriteResult) → write_error (write_loop rs).0 ≢ eintr
unfolding write_loop
write_retries [] = omega arith
write_retries (r ∷ rs) = elim (Bool-cases (write_error r == eintr)) [
  | inl again ↦ rw again (write_retries rs)
  | inr done ↦ rw done (ground arith)
]

-- An interrupted call is made again: neither loop hands EINTR on.
pub loops_retry :
    (rs : List ReadResult) (ws : List WriteResult)
    → (read_error (read_loop rs).0 ≢ eintr) × (write_error (write_loop ws).0 ≢ eintr)
loops_retry rs ws = (read_retries rs, write_retries ws)
