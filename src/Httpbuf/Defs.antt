-- ===== src/Httpbuf/Defs.antt =====
-- The definitions of lib/kcn_httpbuf.c. `alloc n` says whether realloc() gives a block of `n` bytes.
use kcn.Common.{
  ℕ, List, [], ◌++◌, length, Option, some, none, Bool, true, false, ltb, add_size, if◌then◌else◌,
}

-- struct kcn_httpbuf; `none` is the null pointer.
pub record Httpbuf : Type 0 where
  pub ptr : Option (List ℕ)
  pub size : ℕ

-- kcn_httpbuf_new where malloc() gives the structure
unfoldable pub new : Bool → Option Httpbuf
new true = some (record { ptr = none; size = 0 })
new false = none

-- kcn_httpbuf_get: the bytes, which the buffer gives away.
unfoldable pub get : Httpbuf → Option (List ℕ) × Httpbuf
get khb = (khb.ptr, record { ptr = none; size = 0 })

-- The bytes in a block that realloc() has grown, before what is copied behind them.
unfoldable pub content : Option (List ℕ) → List ℕ
content none = []
content (some l) = l

-- kcn_httpbuf_append
unfoldable pub append : (ℕ → Bool) → List ℕ → Httpbuf → Bool × Httpbuf
unfolding content
append alloc p khb =
    if ltb (add_size khb.size (length p)) khb.size
    then (false, khb)
    else if alloc (add_size khb.size (length p))
    then (true, record { ptr = some (content khb.ptr ++ p); size = add_size khb.size (length p) })
    else (false, khb)
