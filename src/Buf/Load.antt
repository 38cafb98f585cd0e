-- ===== src/Buf/Load.antt =====
-- The reading operations of lib/kcn_buf.c against the list of the bytes ahead of the cursor.
use kcn.Common.{
  ℕ, zero, suc, ◌+◌, ◌-◌, ◌*◌, ◌≤◌, ◌<◌, ◌^◌, ◌/◌, ◌%◌, ◌≡◌, List, [], ◌∷◌, ◌++◌, some, none,
  length, get_elem?, take, drop, arith, ◌>>=◌, ◌>>◌, length-take, length-drop, length-append,
}
use kcn.Buf.Defs.{Buf, need, load_next, get8, get16, get32, get64}
use kcn.Buf.Store.{bytes16, bytes32, bytes64}
use kcn.Buf.View.{IsValid, ahead, skip}

-- The first element of a slice, and the slice that follows it.
slice-cons :
    (n c : ℕ) (l : List ℕ) (x : ℕ) (r : List ℕ)
    → take n (drop c l) ≡ x ∷ r
    → (0 < n) × (get_elem? l c ≡ some x) × (take (n - 1) (drop (c + 1) l) ≡ r)
slice-cons zero c l x r e = cc
slice-cons (suc n) zero [] x r e = cc
slice-cons (suc n) zero (y ∷ l) x r e = (omega arith, ground arith, ground arith)
slice-cons (suc n) (suc c) [] x r e = cc
slice-cons (suc n) (suc c) (y ∷ l) x r e =
    let (p, q, t) = slice-cons (suc n) c l x r e in (p, q, ground arith)

pub ahead-cons :
    {b : Buf} (x : ℕ) (r : List ℕ)
    → IsValid b
    → ahead b ≡ x ∷ r
    → (load_next b ≡ some (x, skip 1 b)) × IsValid (skip 1 b) × (ahead (skip 1 b) ≡ r)
unfolding load_next
ahead-cons {b} x r v e =
    let (p, q, t) = slice-cons (b.ep - b.cp) b.cp b.bytes x r e in
    let s : b.ep - (b.cp + 1) ≡ b.ep - b.cp - 1 = omega arith in (ground arith, omega arith, rw s t)

pub length-ahead : {b : Buf} → IsValid b → length (ahead b) ≡ b.ep - b.cp
length-ahead {b} v =
    omega (arith, length-take (b.ep - b.cp) (drop b.cp b.bytes), length-drop b.cp b.bytes)

-- Loads one after the other, and what is ahead then.
abbrev skip_all : List ℕ → Buf → Buf
skip_all [] b = b
skip_all (x ∷ xs) b = skip_all xs (skip 1 b)

abbrev Loads : List ℕ → Buf → Type 0
Loads [] b = Unit
Loads (x ∷ xs) b = (load_next b ≡ some (x, skip 1 b)) × Loads xs (skip 1 b)

loads :
    (xs r : List ℕ) {b : Buf}
    → IsValid b
    → ahead b ≡ xs ++ r
    → Loads xs b × IsValid (skip_all xs b) × (ahead (skip_all xs b) ≡ r)
loads [] r v e = (tt, v, e)
loads (x ∷ xs) r v e =
    let (l, v', e') = ahead-cons x (xs ++ r) v e in
    let (ls, w, f) = loads xs r v' e' in ((l, ls), w, f)

skip_all-skip : (xs : List ℕ) (b : Buf) → skip_all xs b ≡ skip (length xs) b
skip_all-skip [] b = ground arith
skip_all-skip (x ∷ xs) b = ground (arith, skip_all-skip xs (skip 1 b))

-- The buffer behind a prefix of what was ahead.
pub ahead-skip :
    (xs r : List ℕ) {b : Buf}
    → IsValid b
    → ahead b ≡ xs ++ r
    → IsValid (skip (length xs) b) × (ahead (skip (length xs) b) ≡ r)
ahead-skip xs r {b} v e =
    let (ls, w, f) = loads xs r v e in let s = skip_all-skip xs b in (rw s at w, rw s at f)

pub need_lem : (n : ℕ) {b : Buf} → IsValid b → n ≤ length (ahead b) → need n b ≡ some (tt, b)
unfolding need
need_lem n v h = ground (arith, length-ahead v)

pub need_short : (n : ℕ) {b : Buf} → IsValid b → length (ahead b) < n → need n b ≡ none
unfolding need
need_short n v h = ground (arith, length-ahead v)

need_prefix :
    (xs r : List ℕ) {b : Buf} → IsValid b → ahead b ≡ xs ++ r → need (length xs) b ≡ some (tt, b)
need_prefix xs r v e = need_lem (length xs) v (rw (e, length-append) (omega arith))

pub get8_lem :
    (x : ℕ) (r : List ℕ) {b : Buf} → IsValid b → ahead b ≡ x ∷ r → get8 b ≡ some (x, skip 1 b)
unfolding get8
get8_lem x r {b} v e =
    let xs : List ℕ = x ∷ [] in let l = (loads xs r v e).0 in rw (need_prefix xs r v e, ◌>>◌, l.0)

join16 : (x : ℕ) → x < 2 ^ 16 → x / 2 ^ 8 % 256 * 2 ^ 8 + x % 256 ≡ x
join16 x h = omega arith

join32 :
    (x : ℕ)
    → x < 2 ^ 32
    → x / 2 ^ 24 % 256 * 2 ^ 24 + x / 2 ^ 16 % 256 * 2 ^ 16 + x / 2 ^ 8 % 256 * 2 ^ 8 + x % 256 ≡ x
join32 x h = omega arith

join64 :
    (x : ℕ)
    → x < 2 ^ 64
    → x / 2 ^ 56 % 256 * 2 ^ 56
        + x / 2 ^ 48 % 256 * 2 ^ 48
        + x / 2 ^ 40 % 256 * 2 ^ 40
        + x / 2 ^ 32 % 256 * 2 ^ 32
        + x / 2 ^ 24 % 256 * 2 ^ 24
        + x / 2 ^ 16 % 256 * 2 ^ 16
        + x / 2 ^ 8 % 256 * 2 ^ 8
        + x % 256
      ≡ x
join64 x h = omega arith

pub get16_bytes :
    (x y : ℕ) (r : List ℕ) {b : Buf}
    → IsValid b
    → ahead b ≡ x ∷ y ∷ r
    → get16 b ≡ some (x * 2 ^ 8 + y, skip 2 b)
unfolding get16
get16_bytes x y r {b} v e =
    let xs : List ℕ = x ∷ y ∷ [] in
    let l = (loads xs r v e).0 in
    rw (need_prefix xs r v e, ◌>>◌, ◌>>=◌, l.0, l.1.0, skip_all-skip xs b)

pub get16_lem :
    (x : ℕ) (r : List ℕ) {b : Buf}
    → IsValid b
    → x < 2 ^ 16
    → ahead b ≡ bytes16 x ++ r
    → get16 b ≡ some (x, skip 2 b)
unfolding get16
get16_lem x r {b} v h e =
    let l = (loads (bytes16 x) r v e).0 in
    rw (
      need_prefix (bytes16 x) r v e,
      ◌>>◌,
      ◌>>=◌,
      l.0,
      l.1.0,
      skip_all-skip (bytes16 x) b,
      join16 x h,
    )

pub get32_lem :
    (x : ℕ) (r : List ℕ) {b : Buf}
    → IsValid b
    → x < 2 ^ 32
    → ahead b ≡ bytes32 x ++ r
    → get32 b ≡ some (x, skip 4 b)
unfolding get32
get32_lem x r {b} v h e =
    let l = (loads (bytes32 x) r v e).0 in
    rw (
      need_prefix (bytes32 x) r v e,
      ◌>>◌,
      ◌>>=◌,
      l.0,
      l.1.0,
      l.1.1.0,
      l.1.1.1.0,
      skip_all-skip (bytes32 x) b,
      join32 x h,
    )

pub get64_lem :
    (x : ℕ) (r : List ℕ) {b : Buf}
    → IsValid b
    → x < 2 ^ 64
    → ahead b ≡ bytes64 x ++ r
    → get64 b ≡ some (x, skip 8 b)
unfolding get64
get64_lem x r {b} v h e =
    let l = (loads (bytes64 x) r v e).0 in
    let l' = l.1.1.1.1 in
    rw (
      need_prefix (bytes64 x) r v e,
      ◌>>◌,
      ◌>>=◌,
      l.0,
      l.1.0,
      l.1.1.0,
      l.1.1.1.0,
      l'.0,
      l'.1.0,
      l'.1.1.0,
      l'.1.1.1.0,
      skip_all-skip (bytes64 x) b,
      join64 x h,
    )
