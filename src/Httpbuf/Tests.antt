-- ===== src/Httpbuf/Tests.antt =====
-- Runs of lib/kcn_httpbuf.c with at most four bytes of memory.
use kcn.Common.{◌≡◌, refl, [], ◌∷◌, some, true, false, leb}
use kcn.Httpbuf.Defs.{Httpbuf, content, append}

abbrev two : Httpbuf
two = record { ptr = some (1 ∷ 2 ∷ []); size = 2 }

append_run :
    append (λ n. leb n 4) (3 ∷ []) two ≡ (true, record { ptr = some (1 ∷ 2 ∷ 3 ∷ []); size = 3 })
unfolding append content
append_run = refl

append_refused : append (λ n. leb n 4) (3 ∷ 4 ∷ 5 ∷ []) two ≡ (false, two)
unfolding append content
append_refused = refl
