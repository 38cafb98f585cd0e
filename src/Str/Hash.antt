-- ===== src/Str/Hash.antt =====
-- The hash of lib/kcn_str.c as a polynomial, and its range.
use kcn.Common.{
  ℕ, suc, ◌+◌, ◌*◌, ◌/◌, ◌%◌, ◌^◌, ◌<◌, ◌≡◌, ap, ◌∙◌, sym, List, [], ◌∷◌, length, take, arith,
}
use native.Mathlib.Nat.{add-mul-mod_self_left, mod-add-div, mod-lt, add-mul, mul_assoc, pow-suc}
use kcn.Str.Defs.{hash_loop, str_hash, djb2_init}

-- The value of a string in base 33.
unfoldable pub base33 : List ℕ → ℕ
base33 [] = 0
base33 (c ∷ s) = c * 33 ^ length s + base33 s

regroup : (r q m k y : ℕ) → r * k + y + m * (q * k) ≡ (r + m * q) * k + y
regroup r q m k y = rw (add-mul, mul_assoc) (omega arith)

mod-mul-add : (m x k y : ℕ) → (x % m * k + y) % m ≡ (x * k + y) % m
mod-mul-add m x k y =
    sym (add-mul-mod_self_left (x % m * k + y) m (x / m * k))
    ∙ ap (λ z. z % m) (regroup (x % m) (x / m) m k y ∙ ap (λ z. z * k + y) (mod-add-div x m))

base33_step : (h c n y : ℕ) → (h * 2 ^ 5 + h + c) * 33 ^ n + y ≡ h * 33 ^ suc n + (c * 33 ^ n + y)
base33_step h c n y = rw (add-mul, add-mul, mul_assoc, pow-suc 33 n) (omega arith)

-- The loop computes the string as the digits of a number in base 33, behind its start value and
-- modulo 2 ^ 32.
hash_loop-base33 :
    (h : ℕ) (s : List ℕ) → h < 2 ^ 32 → hash_loop h s ≡ (h * 33 ^ length s + base33 s) % 2 ^ 32
unfolding hash_loop base33
hash_loop-base33 h [] b = omega arith
hash_loop-base33 h (c ∷ s) b =
    hash_loop-base33 ((h * 2 ^ 5 + h + c) % 2 ^ 32) s (omega arith)
    ∙ mod-mul-add (2 ^ 32) (h * 2 ^ 5 + h + c) (33 ^ length s) (base33 s)
    ∙ ap (λ z. z % 2 ^ 32) (base33_step h c (length s) (base33 s))

-- kcn_str_hash is the value of the first `n` characters in base 33 behind 5381, modulo 2 ^ 32, with
-- its bits from the fifth on added to it, modulo the size of the table; and where the table is not
-- empty it is an index of the table.
pub str_hash-base33 :
    (s : List ℕ) (n size : ℕ)
    → 0 < size
    → (str_hash s n size ≡ (
        let h = (djb2_init * 33 ^ length (take n s) + base33 (take n s)) % 2 ^ 32 in
        (h + h / 32) % 2 ^ 32 % size))
      × (str_hash s n size < size)
unfolding str_hash
str_hash-base33 s n size p = (
  ap (λ h. (h + h / 32) % 2 ^ 32 % size) (hash_loop-base33 djb2_init (take n s) (omega arith)),
  mod-lt _ p,
)
