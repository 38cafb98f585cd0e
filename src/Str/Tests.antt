-- ===== src/Str/Tests.antt =====
-- Runs of lib/kcn_str.c, and the theorems at concrete inputs.
use kcn.Common.{◌≡◌, refl, bad, einval, erange, arith, min}
use kcn.Common.Text.{codes}
use kcn.Str.Defs.{strtoull, str_hash, ullong_max, llong_max}
use kcn.Str.Number.{decimal, in_range, strtoull-decimal}

strtoull_text : strtoull (codes "42x") 0 ullong_max ≡ bad einval
unfolding strtoull
strtoull_text = refl

strtoull_range : strtoull (codes " 300") 0 255 ≡ bad erange
unfolding strtoull
strtoull_range = refl

str_hash_run : str_hash (codes "example.com/") 12 256 ≡ 42
unfolding str_hash
str_hash_run = refl

-- 2 ^ 64 - 1 reads as 2 ^ 63 - 1.
strtoull-decimal_example :
    strtoull (codes "18446744073709551615") 0 ullong_max
    ≡ in_range 0 ullong_max (min (decimal (codes "18446744073709551615")) llong_max)
strtoull-decimal_example =
    strtoull-decimal b'1' (codes "8446744073709551615") 0 ullong_max (ground arith)
