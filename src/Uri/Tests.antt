-- ===== src/Uri/Tests.antt =====
-- Runs of lib/kcn_uri.c, and the theorems at concrete inputs.
use kcn.Common.{◌≡◌, ◌+◌, ◌^◌, ◌<◌, length, refl, ◌++◌, some, Bool, true, false, leb, ◌⊎◌, arith}
use kcn.Common.Text.{codes}
use kcn.Uri.Defs.{Uri, enc, param_puts}
use kcn.Uri.Encoding.{dec, plain, dec-enc, IsExact, Refuses, parameter, param_puts_lem}

enc_run : enc (codes "a b/é") ≡ codes "a+b%2F%E9"
unfolding enc
enc_run = refl

dec-enc_example : dec plain (enc (codes "x&y z")) ≡ codes "x&y z"
dec-enc_example = dec-enc (codes "x&y z") (omega arith)

abbrev base : Uri
base = record { urilen = 3; size = 4; uri = codes "h?v" }

fits : 3 + length (parameter (codes "q") (codes "a b")) + 1 < 2 ^ 64
unfolding enc
fits = omega arith

-- A system that gives at most twelve bytes.
param_puts_lem_example :
    (b : Bool) × (ku' : Uri) × (param_puts (λ i n. leb n 12) (codes "q") (some (codes "a b")) base
      ≡ some (b, ku'))
    × IsExact ku'
    × (((b ≡ true) × (ku'.uri ≡ codes "h?v" ++ parameter (codes "q") (codes "a b")))
        ⊎ ((b ≡ false) × Refuses (λ i n. leb n 12)))
param_puts_lem_example =
    param_puts_lem (λ i n. leb n 12) (codes "q") (codes "a b") base (omega arith) fits
