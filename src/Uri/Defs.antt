-- ===== src/Uri/Defs.antt =====
-- The definitions of lib/kcn_uri.c. A block of memory is its size and the bytes in use; `alloc i n` says
-- whether call `i` of malloc() or realloc() gives a block of `n` bytes. Sizes are of type size_t.
use kcn.Common.{
  ℕ, ◌+◌, ◌-◌, ◌/◌, ◌%◌, ◌^◌, List, [], ◌∷◌, ◌++◌, length, take, Option, some, none, Bool, true,
  false, not, ◌&&◌, ◌||◌, leb, ltb, ◌==◌, if◌then◌else◌, add_size, M, ◌>>=◌, pure,
}
use kcn.Common.Text.{isalnum, codes}

-- struct kcn_uri, with the size of the block behind ku_uri
pub record Uri : Type 0 where
  pub urilen : ℕ
  pub size : ℕ
  pub uri : List ℕ

abbrev pub encoding_factor : ℕ
encoding_factor = 3

unfoldable pub str_isnormal : ℕ → Bool
unfolding isalnum
str_isnormal c = isalnum c || c == b'.' || c == b'-' || c == b'_'

unfoldable pub str_len : List ℕ → Bool → ℕ
unfolding str_isnormal
str_len [] enc = 0
str_len (c ∷ s) enc =
    add_size (if enc && (not (str_isnormal c) && not (c == 32)) then encoding_factor else 1)
      (str_len s enc)

unfoldable pub new : (ℕ → ℕ → Bool) → List ℕ → Option Uri
unfolding str_len
new alloc base =
    let n = str_len base false in
    if alloc 0 16
    then (if alloc 1 (add_size n 1)
        then some (record { urilen = n; size = add_size n 1; uri = take n base })
        else none)
    else none

-- kcn_uri_ensure_trailing_space, with what realloc() answers. The NUL that it stores must lie in the block.
unfoldable pub ensure_trailing_space : (ℕ → Bool) → ℕ → M Uri Bool
ensure_trailing_space alloc n ku =
    let nlen = add_size ku.urilen n in
    let size = add_size nlen 1 in
    if alloc size
    then (if ltb nlen size then some (true, record ku { size = size }) else none)
    else some (false, ku)

unfoldable pub resize : ℕ → M Uri (Unit {0})
resize n ku =
    if leb n ku.urilen then some (tt, record ku { urilen = n; uri = take n ku.uri }) else none

-- Bytes that are stored from ku_urilen on must lie in the block, before its last byte, a NUL.
unfoldable pub store : List ℕ → M Uri Bool
store p ku =
    if ltb (ku.urilen + length p) ku.size
    then some (true, record ku { urilen = ku.urilen + length p; uri = ku.uri ++ p })
    else none

-- hexstr
unfoldable pub hex_digit : ℕ → ℕ
hex_digit n = if ltb n 10 then b'0' + n else b'A' + (n - 10)

-- The bytes that the loop of kcn_uri_encputs stores for one byte.
unfoldable pub enc_char : ℕ → List ℕ
unfolding str_isnormal hex_digit
enc_char c =
    if str_isnormal c
    then c ∷ []
    else if c == 32
    then b'+' ∷ []
    else b'%' ∷ hex_digit (c / 2 ^ 4 % 16) ∷ hex_digit (c % 16) ∷ []

unfoldable pub enc : List ℕ → List ℕ
unfolding enc_char
enc [] = []
enc (c ∷ s) = enc_char c ++ enc s

unfoldable pub encputs : (ℕ → Bool) → List ℕ → M Uri Bool
unfolding ensure_trailing_space str_len store enc
encputs alloc s = do
  room ← ensure_trailing_space alloc (str_len s true)
  if room then store (enc s) else pure false

unfoldable pub puts : (ℕ → Bool) → List ℕ → M Uri Bool
unfolding ensure_trailing_space str_len store
puts alloc s = do
  room ← ensure_trailing_space alloc (str_len s false)
  if room then store (take (str_len s false) s) else pure false

unfoldable pub param_puts : (ℕ → ℕ → Bool) → List ℕ → Option (List ℕ) → M Uri Bool
unfolding puts encputs
param_puts alloc param none = pure true
param_puts alloc param (some val) = do
  a ← puts (alloc 0) (codes "&")
  b ← (if a then puts (alloc 1) param else pure false)
  c ← (if b then puts (alloc 2) (codes "=") else pure false)
  if c then encputs (alloc 3) val else pure false
