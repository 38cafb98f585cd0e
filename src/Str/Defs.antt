-- ===== src/Str/Defs.antt =====
-- The functions of lib/kcn_str.c, and strtoll() of the C library, which it calls.
use kcn.Common.{
  ℕ, ◌+◌, ◌-◌, ◌*◌, ◌/◌, ◌%◌, ◌^◌, List, [], ◌∷◌, ◌++◌, Option, some, none, Bool, true, false, ◌&&◌,
  ◌||◌, ltb, ◌==◌, if◌then◌else◌, take, Outcome, ok, bad, einval, erange,
}
use kcn.Common.Text.{isspace, isdigit}

abbrev pub llong_max : ℕ
llong_max = 2 ^ 63 - 1

abbrev pub ullong_max : ℕ
ullong_max = 2 ^ 64 - 1

-- What strtoll() gives: the bit pattern of the number, whether errno is ERANGE, and what is left
-- of the string.
pub record Parsed : Type 0 where
  pub pattern : ℕ
  pub out_of_range : Bool
  pub rest : List ℕ

unfoldable pub skip_spaces : List ℕ → List ℕ
unfolding isspace
skip_spaces [] = []
skip_spaces (c ∷ s) = if isspace c then skip_spaces s else c ∷ s

-- The number that the digits at the front spell after `n`, and what follows them.
unfoldable pub digits : ℕ → List ℕ → ℕ × List ℕ
unfolding isdigit
digits n [] = (n, [])
digits n (c ∷ s) = elim (isdigit c) [ true ↦ digits (n * 10 + (c - b'0')) s | false ↦ (n, c ∷ s) ]

unfoldable pub starts_with_digit : List ℕ → Bool
unfolding isdigit
starts_with_digit [] = false
starts_with_digit (c ∷ s) = isdigit c

-- A number beyond long long is cut to its ends.
unfoldable pub clamp : Bool → ℕ × List ℕ → Parsed
clamp true (n, r) =
    if ltb (2 ^ 63) n
    then record { pattern = 2 ^ 63; out_of_range = true; rest = r }
    else record { pattern = (2 ^ 64 - n) % 2 ^ 64; out_of_range = false; rest = r }
clamp false (n, r) =
    if ltb llong_max n
    then record { pattern = llong_max; out_of_range = true; rest = r }
    else record { pattern = n; out_of_range = false; rest = r }

unfoldable pub signed : Bool → List ℕ → List ℕ → Parsed
unfolding starts_with_digit digits clamp
signed minus whole s =
    if starts_with_digit s
    then clamp minus (digits 0 s)
    else record { pattern = 0; out_of_range = false; rest = whole }

unfoldable pub strtoll_at : List ℕ → List ℕ → Parsed
unfolding signed
strtoll_at whole [] = record { pattern = 0; out_of_range = false; rest = whole }
strtoll_at whole (c ∷ s) =
    if c == b'-'
    then signed true whole s
    else if c == b'+'
    then signed false whole s
    else signed false whole (c ∷ s)

unfoldable pub strtoll : List ℕ → Parsed
unfolding strtoll_at skip_spaces
strtoll s = strtoll_at s (skip_spaces s)

unfoldable pub nonempty : List ℕ → Bool
nonempty [] = false
nonempty (c ∷ s) = true

-- kcn_strtoull behind its call of strtoll().
unfoldable pub check_number : List ℕ → ℕ → ℕ → Parsed → Outcome ℕ
unfolding nonempty
check_number s lo hi p =
    if (if nonempty s then nonempty p.rest else true)
    then bad einval
    else if p.out_of_range && (p.pattern == ullong_max || p.pattern == 0)
    then bad erange
    else if ltb p.pattern lo || ltb hi p.pattern
    then bad erange
    else ok p.pattern

unfoldable pub strtoull : List ℕ → ℕ → ℕ → Outcome ℕ
unfolding strtoll check_number
strtoull s lo hi = check_number s lo hi (strtoll s)

-- kcn_str_dup: `none` where malloc() fails; the copy ends in a NUL.
unfoldable pub str_dup : Bool → List ℕ → ℕ → Option (List ℕ)
str_dup false s n = none
str_dup true s n = some (take n s ++ (0 ∷ []))

abbrev pub djb2_init : ℕ
djb2_init = 5381

-- The loop of kcn_str_hash, in unsigned int.
unfoldable pub hash_loop : ℕ → List ℕ → ℕ
hash_loop h [] = h
hash_loop h (c ∷ s) = hash_loop ((h * 2 ^ 5 + h + c) % 2 ^ 32) s

unfoldable pub str_hash : List ℕ → ℕ → ℕ → ℕ
unfolding hash_loop
str_hash s n size = let h = hash_loop djb2_init (take n s) in (h + h / 2 ^ 5) % 2 ^ 32 % size
