-- ===== src/Str/Number.antt =====
-- kcn_strtoull (lib/kcn_str.c) on strings of decimal digits.
use kcn.Common.{
  ℕ, suc, ◌+◌, ◌-◌, ◌*◌, ◌^◌, ◌≤◌, ◌<◌, ◌≡◌, ◌≢◌, refl, ap, ◌∙◌, List, [], ◌∷◌, length, All, arith,
  Bool-cases, le→ltb, ltb, ◌==◌, if◌then◌else◌, true, false, inl, inr, ◌||◌, Outcome, ok, bad,
  erange, min,
}
use native.Mathlib.Nat.{add-mul, mul_assoc, pow-suc, mod-eq_of_lt}
use kcn.Common.Text.{isdigit, isspace}
use kcn.Str.Defs.{
  digits, starts_with_digit, clamp, signed, strtoll_at, strtoll, skip_spaces, check_number,
  strtoull, nonempty, llong_max,
}

-- The value of a string of digits, by their places.
unfoldable pub decimal : List ℕ → ℕ
decimal [] = 0
decimal (c ∷ s) = (c - b'0') * 10 ^ length s + decimal s

abbrev pub IsDigit : ℕ → Type 0
IsDigit c = (b'0' ≤ c) × (c ≤ b'9')

isdigit_lem : (c : ℕ) → IsDigit c → isdigit c ≡ true
unfolding isdigit
isdigit_lem c h = ground arith

isspace_lem : (c : ℕ) → IsDigit c → isspace c ≡ false
unfolding isspace
isspace_lem c h = ground arith

decimal_step : (n d k y : ℕ) → (n * 10 + d) * 10 ^ k + y ≡ n * 10 ^ suc k + (d * 10 ^ k + y)
decimal_step n d k y = rw (add-mul, mul_assoc, pow-suc 10 k) (omega arith)

digits-decimal :
    (n : ℕ) (s : List ℕ) → All IsDigit s → digits n s ≡ (n * 10 ^ length s + decimal s, [])
unfolding digits decimal
digits-decimal n [] h = ap (λ v. (v, [])) (omega arith)
digits-decimal n (c ∷ s) (hc, hs) =
    rw (digits, isdigit_lem c hc)
      (digits-decimal (n * 10 + (c - b'0')) s hs
        ∙ ap (λ v. (v, [])) (decimal_step n (c - b'0') (length s) (decimal s)))

digits0-decimal : (s : List ℕ) → All IsDigit s → digits 0 s ≡ (decimal s, [])
digits0-decimal s h = digits-decimal 0 s h ∙ ap (λ v. (v, [])) (omega arith)

-- The range check of kcn_strtoull.
unfoldable pub in_range : ℕ → ℕ → ℕ → Outcome ℕ
in_range lo hi v = if ltb v lo || ltb hi v then bad erange else ok v

==_neq : (a b : ℕ) → a ≢ b → (a == b) ≡ false
==_neq a b h = ground arith

positive_lem :
    (whole : List ℕ) (c : ℕ) (s : List ℕ)
    → All IsDigit (c ∷ s)
    → strtoll_at whole (c ∷ s) ≡ clamp false (decimal (c ∷ s), [])
unfolding strtoll_at signed starts_with_digit
positive_lem whole c s (hc, hs) =
    rw
      (
        ==_neq c b'-' (ground arith),
        ==_neq c b'+' (ground arith),
        isdigit_lem c hc,
        digits0-decimal (c ∷ s) (hc, hs),
      )
      refl

clamp-check_number :
    (c : ℕ) (s : List ℕ) (lo hi v : ℕ)
    → check_number (c ∷ s) lo hi (clamp false (v, [])) ≡ in_range lo hi (min v llong_max)
unfolding check_number clamp in_range nonempty
clamp-check_number c s lo hi v = elim (Bool-cases (ltb llong_max v)) [
  | inl e ↦ rw e (ap (in_range lo hi) (ground arith))
  | inr e ↦ rw e (ap (in_range lo hi) (ground arith))
]

clamp_minus_lem :
    (c : ℕ) (s : List ℕ) (v lo hi : ℕ)
    → 1 ≤ v
    → v ≤ 2 ^ 63
    → lo ≤ 2 ^ 64 - v
    → 2 ^ 64 - v ≤ hi
    → check_number (c ∷ s) lo hi (clamp true (v, [])) ≡ ok (2 ^ 64 - v)
unfolding check_number clamp nonempty
clamp_minus_lem c s v lo hi p b l u =
    let small : 2 ^ 64 - v < 2 ^ 64 = omega arith in
    rw (le→ltb (2 ^ 63) v b, mod-eq_of_lt small, le→ltb (2 ^ 64 - v) lo l, le→ltb hi (2 ^ 64 - v) u)
      refl

-- For a nonempty string of decimal digits, kcn_strtoull gives the range check of the number that
-- the string spells, cut to the largest long long.
pub strtoull-decimal :
    (c : ℕ) (s : List ℕ) (lo hi : ℕ)
    → All IsDigit (c ∷ s)
    → strtoull (c ∷ s) lo hi ≡ in_range lo hi (min (decimal (c ∷ s)) llong_max)
unfolding strtoull strtoll skip_spaces
strtoull-decimal c s lo hi (hc, hs) =
    rw (isspace_lem c hc, positive_lem (c ∷ s) c s (hc, hs))
      (clamp-check_number c s lo hi (decimal (c ∷ s)))

-- Of a minus sign before a nonempty string of decimal digits that spell a number from 1 to 2 ^ 63,
-- kcn_strtoull makes the difference of 2 ^ 64 and the number, and accepts it under any bounds that
-- hold this difference.
pub strtoull-minus :
    (c : ℕ) (s : List ℕ) (lo hi : ℕ)
    → All IsDigit (c ∷ s)
    → 1 ≤ decimal (c ∷ s)
    → decimal (c ∷ s) ≤ 2 ^ 63
    → lo ≤ 2 ^ 64 - decimal (c ∷ s)
    → 2 ^ 64 - decimal (c ∷ s) ≤ hi
    → strtoull (b'-' ∷ c ∷ s) lo hi ≡ ok (2 ^ 64 - decimal (c ∷ s))
unfolding strtoull strtoll skip_spaces strtoll_at signed starts_with_digit isspace
strtoull-minus c s lo hi (hc, hs) p b l u =
    rw (isdigit_lem c hc, digits0-decimal (c ∷ s) (hc, hs))
      (clamp_minus_lem b'-' (c ∷ s) (decimal (c ∷ s)) lo hi p b l u)
