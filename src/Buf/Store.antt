-- ===== src/Buf/Store.antt =====
-- The writing operations of lib/kcn_buf.c against one description of a write.
use kcn.Common.{
  ℕ, zero, suc, ◌+◌, ◌≤◌, ◌<◌, ◌^◌, ◌/◌, ◌%◌, ◌≡◌, refl, List, [], ◌∷◌, some, none, length, take,
  take-length, set, splice, arith, length-splice, le→leb, M, ◌>>◌, ap, length-set, replicate,
  length-replicate, length-take, slice-splice, ◌-◌, ◌++◌,
}
use kcn.Buf.Defs.{
  Buf, append, store_next, store_block, forward, put8, put16, put32, put64, put, putnull,
}
use kcn.Buf.View.{IsValid, stored, held}

grown : ℕ → Buf → Buf
grown n b = record b { ep = Prim.Native.Nat.max b.ep (b.cp + n) }

append-grown : (n : ℕ) {b : Buf} → IsValid b → b.cp + n ≤ b.size → append n b ≡ some (tt, grown n b)
unfolding append grown
append-grown n v room = ground arith

append_full : (n : ℕ) {b : Buf} → IsValid b → n ≤ 2 ^ 63 → b.size < b.cp + n → append n b ≡ none
unfolding append
append_full n v w room = ground arith

-- Stores one after the other.
abbrev put_next : ℕ → Buf → Buf
put_next x b = record b { bytes = set b.bytes b.cp x; cp = b.cp + 1 }

abbrev put_all : List ℕ → Buf → Buf
put_all [] b = b
put_all (x ∷ xs) b = put_all xs (put_next x b)

abbrev Stores : List ℕ → Buf → Type 0
Stores [] b = Unit
Stores (x ∷ xs) b = (store_next x b ≡ some (tt, put_next x b)) × Stores xs (put_next x b)

store_next_lem :
    (x : ℕ) (b : Buf)
    → b.cp < length b.bytes
    → length b.bytes < 2 ^ 63
    → store_next x b ≡ some (tt, put_next x b)
unfolding store_next
store_next_lem x b h w = ground arith

Stores-room :
    (xs : List ℕ) (b : Buf)
    → b.cp + length xs ≤ length b.bytes
    → length b.bytes < 2 ^ 63
    → Stores xs b
Stores-room [] b h w = tt
Stores-room (x ∷ xs) b h w = (
  store_next_lem x b (omega arith) w,
  Stores-room xs (put_next x b) (rw length-set (omega arith)) (rw length-set w),
)

splice-set :
    (xs : List ℕ) (i x : ℕ) (ys : List ℕ) → splice (set xs i x) (suc i) ys ≡ splice xs i (x ∷ ys)
splice-set [] i x [] = refl
splice-set [] i x (y ∷ ys) = refl
splice-set (w ∷ xs) zero x [] = refl
splice-set (w ∷ xs) zero x (y ∷ ys) = refl
splice-set (w ∷ xs) (suc i) x [] = ap (λ r. w ∷ r) (splice-nil xs i x)
  where
    splice-nil : (xs : List ℕ) (i x : ℕ) → set xs i x ≡ splice xs i (x ∷ [])
    splice-nil [] i x = refl
    splice-nil (w ∷ xs) zero x = refl
    splice-nil (w ∷ xs) (suc i) x = ap (λ r. w ∷ r) (splice-nil xs i x)
splice-set (w ∷ xs) (suc i) x (y ∷ ys) = ap (λ r. w ∷ r) (splice-set xs i x (y ∷ ys))

put_all_lem :
    (xs : List ℕ) (b : Buf)
    → put_all xs b ≡ record b { bytes = splice b.bytes b.cp xs; cp = b.cp + length xs }
put_all_lem [] b = ground arith
put_all_lem (x ∷ xs) b = ground (arith, put_all_lem xs (put_next x b), splice-set b.bytes b.cp x xs)

store_grown :
    (xs : List ℕ) {b : Buf}
    → IsValid b
    → b.cp + length xs ≤ b.size
    → Stores xs (grown (length xs) b) × (put_all xs (grown (length xs) b) ≡ stored xs b)
unfolding grown
store_grown xs v room = (Stores-room xs _ (omega arith) (omega arith), put_all_lem xs _)

pub put8_lem :
    (x : ℕ) {b : Buf}
    → IsValid b
    → b.cp + 1 ≤ b.size
    → put8 x b ≡ some (tt, stored (x % 256 ∷ []) b)
unfolding put8
put8_lem x v room =
    let (s, e) = store_grown (x % 256 ∷ []) v room in rw (append-grown 1 v room, ◌>>◌, s.0, e)

-- The bytes of a number, highest first, as `put16`, `put32` and `put64` write them.
abbrev pub bytes16 : ℕ → List ℕ
bytes16 x = (x / 2 ^ 8 % 256) ∷ (x % 256) ∷ []

abbrev pub bytes32 : ℕ → List ℕ
bytes32 x = (x / 2 ^ 24 % 256) ∷ (x / 2 ^ 16 % 256) ∷ bytes16 x

abbrev pub bytes64 : ℕ → List ℕ
bytes64 x =
    (x / 2 ^ 56 % 256) ∷ (x / 2 ^ 48 % 256) ∷ (x / 2 ^ 40 % 256) ∷ (x / 2 ^ 32 % 256) ∷ bytes32 x

pub put16_lem :
    (x : ℕ) {b : Buf} → IsValid b → b.cp + 2 ≤ b.size → put16 x b ≡ some (tt, stored (bytes16 x) b)
unfolding put16
put16_lem x v room =
    let (s, e) = store_grown (bytes16 x) v room in rw (append-grown 2 v room, ◌>>◌, s.0, s.1.0, e)

pub put32_lem :
    (x : ℕ) {b : Buf} → IsValid b → b.cp + 4 ≤ b.size → put32 x b ≡ some (tt, stored (bytes32 x) b)
unfolding put32
put32_lem x v room =
    let (s, e) = store_grown (bytes32 x) v room in
    rw (append-grown 4 v room, ◌>>◌, s.0, s.1.0, s.1.1.0, s.1.1.1.0, e)

pub put64_lem :
    (x : ℕ) {b : Buf} → IsValid b → b.cp + 8 ≤ b.size → put64 x b ≡ some (tt, stored (bytes64 x) b)
unfolding put64
put64_lem x v room =
    let (s, e) = store_grown (bytes64 x) v room in
    let r = s.1.1.1.1 in
    rw (
      append-grown 8 v room,
      ◌>>◌,
      s.0,
      s.1.0,
      s.1.1.0,
      s.1.1.1.0,
      r.0,
      r.1.0,
      r.1.1.0,
      r.1.1.1.0,
      e,
    )

-- The tail that `put` and `putnull` share: a copy to the cursor, and a step over it.
copied : List ℕ → ℕ → Buf → Buf
unfolding grown
copied xs n b = record (grown n b) { bytes = splice b.bytes b.cp xs }

store_block_lem :
    (xs : List ℕ) (n : ℕ) {b : Buf}
    → IsValid b
    → length xs ≡ n
    → b.cp + n ≤ b.size
    → store_block xs (grown n b) ≡ some (tt, copied xs n b)
unfolding store_block copied
store_block_lem xs n {b} v e room = rw (le→leb (b.cp + length xs) (length b.bytes) (omega arith))

forward-copied :
    (xs : List ℕ) (n : ℕ) {b : Buf}
    → IsValid b
    → length xs ≡ n
    → b.cp + n ≤ b.size
    → forward n (copied xs n b) ≡ some (tt, stored xs b)
unfolding forward copied
forward-copied xs n v e room = ground arith

pub put_lem :
    (p : List ℕ) (n : ℕ) {b : Buf}
    → IsValid b
    → n ≤ length p
    → b.cp + n ≤ b.size
    → put p n b ≡ some (tt, stored (take n p) b)
unfolding put
put_lem p n {b} v long room =
    let xs = take n p in
    let e : length xs ≡ n = omega (arith, length-take n p) in
    rw (
      append-grown n v room,
      ◌>>◌,
      le→leb n (length p) long,
      store_block_lem xs n v e room,
      forward-copied xs n v e room,
    )

pub putnull_lem :
    (n : ℕ) {b : Buf}
    → IsValid b
    → b.cp + n ≤ b.size
    → putnull n b ≡ some (tt, stored (replicate n 0) b)
unfolding putnull
putnull_lem n v room =
    let xs : List ℕ = replicate n 0 in
    let e : length xs ≡ n = length-replicate n 0 in
    rw (append-grown n v room, ◌>>◌, store_block_lem xs n v e room, forward-copied xs n v e room)

pub stored-IsValid :
    (xs : List ℕ) {b : Buf} → IsValid b → b.cp + length xs ≤ b.size → IsValid (stored xs b)
stored-IsValid xs {b} v room = omega (arith, length-splice b.bytes b.cp xs)

-- A write at the end of the data.
pub held-stored :
    (xs : List ℕ) {b : Buf}
    → IsValid b
    → b.cp ≡ b.ep
    → b.ep + length xs ≤ b.size
    → held (stored xs b) ≡ held b ++ xs
held-stored xs {b} v e room =
    let m : Prim.Native.Nat.max b.ep (b.cp + length xs) - b.sp ≡ b.ep + length xs - b.sp =
      omega arith in
    rw (m, e) (slice-splice b.bytes b.sp b.ep xs (omega arith) (omega arith))

-- The writing operations as data: the call that each stands for, and the bytes that it writes.
pub data Write : Type 0 where
  byte half word long : ℕ → Write
  block : List ℕ → Write
  nulls : ℕ → Write

unfoldable pub perform : Write → M Buf (Unit {0})
perform (byte x) = put8 x
perform (half x) = put16 x
perform (word x) = put32 x
perform (long x) = put64 x
perform (block p) = put p (length p)
perform (nulls n) = putnull n

unfoldable pub written : Write → List ℕ
written (byte x) = (x % 256) ∷ []
written (half x) = bytes16 x
written (word x) = bytes32 x
written (long x) = bytes64 x
written (block p) = p
written (nulls n) = replicate n 0

-- In a valid buffer with room for its bytes every writing operation writes them at the cursor and
-- moves the cursor behind them. The end of the data moves only as far as the cursor passes it,
-- and the buffer stays valid.
pub perform-stored :
    (w : Write) {b : Buf}
    → IsValid b
    → b.cp + length (written w) ≤ b.size
    → (perform w b ≡ some (tt, stored (written w) b)) × IsValid (stored (written w) b)
unfolding perform written
perform-stored (byte x) v room = (put8_lem x v room, stored-IsValid (written (byte x)) v room)
perform-stored (half x) v room = (put16_lem x v room, stored-IsValid (written (half x)) v room)
perform-stored (word x) v room = (put32_lem x v room, stored-IsValid (written (word x)) v room)
perform-stored (long x) v room = (put64_lem x v room, stored-IsValid (written (long x)) v room)
perform-stored (block p) v room =
    (rw take-length at (put_lem p (length p) v (omega arith) room), stored-IsValid p v room)
perform-stored (nulls n) v room =
    let e : length (replicate {A = ℕ} n 0) ≡ n = length-replicate n 0 in
    (putnull_lem n v (rw e at room), stored-IsValid (written (nulls n)) v room)

-- Where the block has no room for the bytes, every writing operation aborts at the assertion of
-- kcn_buf_append. (A length over 2 ^ 63, which no object has, could wrap the size_t sum.)
pub perform_aborts :
    (w : Write) {b : Buf}
    → IsValid b
    → length (written w) ≤ 2 ^ 63
    → b.size < b.cp + length (written w)
    → perform w b ≡ none
unfolding perform written put8 put16 put32 put64 put putnull
perform_aborts (byte x) v h full = rw (append_full 1 v h full, ◌>>◌)
perform_aborts (half x) v h full = rw (append_full 2 v h full, ◌>>◌)
perform_aborts (word x) v h full = rw (append_full 4 v h full, ◌>>◌)
perform_aborts (long x) v h full = rw (append_full 8 v h full, ◌>>◌)
perform_aborts (block p) v h full = rw (append_full (length p) v h full, ◌>>◌)
perform_aborts (nulls n) {b} v h full =
    let e : length (replicate {A = ℕ} n 0) ≡ n = length-replicate n 0 in
    rw (append_full n v (rw e at h) (rw e at full), ◌>>◌)
