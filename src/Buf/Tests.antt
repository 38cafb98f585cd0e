-- ===== src/Buf/Tests.antt =====
-- Runs of lib/kcn_buf.c on small buffers, and the theorems at concrete inputs.
use kcn.Common.{◌≡◌, refl, List, [], ◌∷◌, some, arith, eagain, eintr}
use kcn.Buf.{Buf, put16, append, store_next}
use kcn.Buf.View.{IsValid, stored}
use kcn.Buf.Store.{half, perform, written, perform-stored}
use kcn.Buf.Io.{ReadResult, read_error, read_loop}
use kcn.Buf.Transfer.{space, received}

-- Eight bytes, of which 3, 4, 5 are held and 5 is ahead.
abbrev small : Buf
small = record { size = 8; sp = 2; ep = 5; bytes = 1 ∷ 2 ∷ 3 ∷ 4 ∷ 5 ∷ 6 ∷ 7 ∷ 8 ∷ []; cp = 4 }

small-IsValid : IsValid small
small-IsValid = omega arith

-- The end of the block is reached, and room is left at its front.
abbrev late : Buf
late = record { size = 4; sp = 3; ep = 4; bytes = 1 ∷ 2 ∷ 3 ∷ 4 ∷ []; cp = 3 }

put16_run : put16 0x1234 small ≡ some (tt, stored (0x12 ∷ 0x34 ∷ []) small)
unfolding put16 append store_next
put16_run = refl

perform-stored_example :
    (perform (half 0x1234) small ≡ some (tt, stored (written (half 0x1234)) small))
    × IsValid (stored (written (half 0x1234)) small)
unfolding written
perform-stored_example = perform-stored (half 0x1234) small-IsValid (omega arith)

-- An interrupted call, then more bytes than there is room for.
abbrev answers : List ReadResult
answers =
    ReadResult.failed eintr ∷ ReadResult.got (5 ∷ 6 ∷ 7 ∷ 8 ∷ []) ∷ ReadResult.failed eagain ∷ []

read_run :
    (read_error (read_loop answers).0 ≡ 0)
    × (received (space late) (read_loop answers).0 ≡ 5 ∷ 6 ∷ 7 ∷ [])
unfolding read_loop read_error
read_run = (refl, refl)
