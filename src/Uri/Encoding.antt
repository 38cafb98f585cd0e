-- ===== src/Uri/Encoding.antt =====
-- The parameters that kcn_uri_param_puts adds (lib/kcn_uri.c).
use kcn.Common.{
  ℕ, ◌+◌, ◌-◌, ◌*◌, ◌/◌, ◌%◌, ◌^◌, ◌<◌, ◌≤◌, ◌≡◌, refl, sym, ap, ◌∙◌, List, [], ◌∷◌, ◌++◌, length,
  take, Option, some, Bool, true, false, not, ◌&&◌, leb, ltb, ◌==◌, if◌then◌else◌, arith, ◌⊎◌,
  Bool-cases, inl, inr, All, IsByte, take-all, length-append, append_assoc, ◌>>=◌, add_size,
}
use kcn.Common.Text.{codes, isalnum, isdigit}
use kcn.Uri.Defs.{
  Uri, str_isnormal, str_len, hex_digit, enc_char, enc, ensure_trailing_space, store, encputs, puts,
  param_puts,
}

-- Reading of a form's value: an escape begins with `%`, and `+` is a space.
pub data Reading : Type 0 where
  plain : Reading
  high : Reading
  low : ℕ → Reading

unfoldable pub unhex : ℕ → ℕ
unhex c = if leb c b'9' then c - b'0' else c - b'A' + 10

unfoldable pub dec : Reading → List ℕ → List ℕ
unfolding unhex
dec r [] = []
dec plain (c ∷ s) =
    let escaped = dec high s in
    let rest = dec plain s in
    if c == b'%' then escaped else if c == b'+' then 32 ∷ rest else c ∷ rest
dec high (c ∷ s) = dec (low (unhex c)) s
dec (low h) (c ∷ s) = (h * 16 + unhex c) ∷ dec plain s

unhex-hex_digit : (n : ℕ) → n < 16 → unhex (hex_digit n) ≡ n
unfolding unhex hex_digit
unhex-hex_digit n h = ground arith

str_isnormal_plain : (c : ℕ) → str_isnormal c ≡ true → ((c == b'%') ≡ false) × ((c == b'+') ≡ false)
unfolding str_isnormal isalnum isdigit
str_isnormal_plain c h = ground arith

dec-enc_char : (c : ℕ) (r : List ℕ) → IsByte c → dec plain (enc_char c ++ r) ≡ c ∷ dec plain r
unfolding dec enc_char
dec-enc_char c r b = elim (Bool-cases (str_isnormal c)) [
  | inl n ↦ let (p, q) = str_isnormal_plain c n in rw (n, p, q) refl
  | inr n ↦ elim (Bool-cases (c == 32)) [
    | inl s ↦ rw (n, s) (ap (λ x. x ∷ dec plain r) (ground arith))
    | inr s ↦
        let digits : unhex (hex_digit (c / 16 % 16)) * 16 + unhex (hex_digit (c % 16)) ≡ c =
          rw (unhex-hex_digit (c / 16 % 16) (omega arith), unhex-hex_digit (c % 16) (omega arith))
            (omega arith) in
        rw (n, s) (ap (λ x. x ∷ dec plain r) digits)
  ]
]

-- What kcn_uri_encputs writes for a string of bytes reads back as the string.
pub dec-enc : (s : List ℕ) → All IsByte s → dec plain (enc s) ≡ s
unfolding enc
dec-enc [] h = unfold dec in refl
dec-enc (c ∷ s) (b, h) = dec-enc_char c (enc s) b ∙ ap (λ r. c ∷ r) (dec-enc s h)

char_len : ℕ → ℕ
char_len c = if not (str_isnormal c) && not (c == 32) then 3 else 1

length-enc_char : (c : ℕ) → length (enc_char c) ≡ char_len c
unfolding enc_char char_len
length-enc_char c = ground arith

length-enc_char_le : (c : ℕ) → length (enc_char c) ≤ 3
unfolding enc_char
length-enc_char_le c = ground arith

-- No byte takes more than three.
pub length-enc_le : (s : List ℕ) → length (enc s) ≤ 3 * length s
unfolding enc
length-enc_le [] = omega arith
length-enc_le (c ∷ s) =
    omega (arith, length-append (enc_char c) (enc s), length-enc_char_le c, length-enc_le s)

sum_lem : (m n k : ℕ) → m ≡ k → k + n < 2 ^ 64 → add_size m n ≡ k + n
sum_lem m n k e h = omega (arith, e, h)

-- The lengths that fit into a size_t.
str_len-enc : (s : List ℕ) → length (enc s) < 2 ^ 64 → str_len s true ≡ length (enc s)
unfolding enc str_len char_len
str_len-enc [] h = refl
str_len-enc (c ∷ s) h =
    let k : char_len c ≡ length (enc_char c) = sym (length-enc_char c) in
    let n = length-append (enc_char c) (enc s) in
    let e = str_len-enc s (omega (arith, n)) in
    rw e (sum_lem (char_len c) (length (enc s)) (length (enc_char c)) k (omega (arith, n)) ∙ sym n)

pub str_len-plain : (s : List ℕ) → length s < 2 ^ 64 → str_len s false ≡ length s
unfolding str_len
str_len-plain [] h = refl
str_len-plain (c ∷ s) h = let e = str_len-plain s (omega arith) in rw e (omega arith)

-- The length is that of the string, which ends inside its block.
pub record IsExact (ku : Uri) : Type 0 where
  pub exact : length ku.uri ≡ ku.urilen
  pub inside : ku.urilen < ku.size

-- The URI with some bytes more.
abbrev extended : List ℕ → Uri → Uri
extended p ku = record {
  urilen = ku.urilen + length p;
  size = ku.urilen + length p + 1;
  uri = ku.uri ++ p;
}

extended-IsExact : (p : List ℕ) {ku : Uri} → IsExact ku → IsExact (extended p ku)
extended-IsExact p {ku} h = omega (arith, length-append ku.uri p)

-- There is room for some bytes in a block whose size is a size_t.
room_lem :
    (alloc : ℕ → Bool) (n : ℕ) (ku : Uri)
    → ku.urilen + n + 1 < 2 ^ 64
    → (ensure_trailing_space alloc n ku ≡ some (true, record ku { size = ku.urilen + n + 1 }))
      ⊎ ((ensure_trailing_space alloc n ku ≡ some (false, ku)) × ((m : ℕ) × (alloc m ≡ false)))
unfolding ensure_trailing_space
room_lem alloc n ku h =
    let a : add_size ku.urilen n ≡ ku.urilen + n = omega arith in
    let b : add_size (ku.urilen + n) 1 ≡ ku.urilen + n + 1 = omega arith in
    let c : ltb (ku.urilen + n) (ku.urilen + n + 1) ≡ true = ground arith in
    elim (Bool-cases (alloc (ku.urilen + n + 1))) [
      | inl e ↦ inl (rw (ensure_trailing_space, a, b, e, c) refl)
      | inr e ↦ inr (rw (ensure_trailing_space, a, b, e) refl, (_, e))
    ]

store_lem :
    (p : List ℕ) (ku : Uri)
    → store p (record ku { size = ku.urilen + length p + 1 }) ≡ some (true, extended p ku)
unfolding store
store_lem p ku =
    let e : ltb (ku.urilen + length p) (ku.urilen + length p + 1) ≡ true = ground arith in
    rw (store, e) refl

-- A call is refused a block of some size.
abbrev pub Refuses : (ℕ → ℕ → Bool) → Type 0
Refuses alloc = (i n : ℕ) × (alloc i n ≡ false)

-- What a step of kcn_uri_param_puts does.
abbrev Extends : (ℕ → Bool) → List ℕ → Uri → Option (Bool × Uri) → Type 0
Extends alloc p ku r =
    (r ≡ some (true, extended p ku)) ⊎ ((r ≡ some (false, ku)) × ((n : ℕ) × (alloc n ≡ false)))

puts_lem :
    (alloc : ℕ → Bool) (s : List ℕ) (ku : Uri)
    → ku.urilen + length s + 1 < 2 ^ 64
    → Extends alloc s ku (puts alloc s ku)
unfolding puts
puts_lem alloc s ku h =
    let n = str_len-plain s (omega arith) in
    let whole : take (str_len s false) s ≡ s = take-all (str_len s false) s (omega (arith, n)) in
    elim (room_lem alloc (length s) ku h) [
      | inl e ↦ inl (rw (puts, n, ◌>>=◌, e, whole) (store_lem s ku))
      | inr (e, m) ↦ inr (rw (puts, n, ◌>>=◌, e) refl, m)
    ]

encputs_lem :
    (alloc : ℕ → Bool) (s : List ℕ) (ku : Uri)
    → ku.urilen + length (enc s) + 1 < 2 ^ 64
    → Extends alloc (enc s) ku (encputs alloc s ku)
unfolding encputs
encputs_lem alloc s ku h =
    let n = str_len-enc s (omega arith) in
    elim (room_lem alloc (length (enc s)) ku h) [
      | inl e ↦ inl (rw (encputs, n, ◌>>=◌, e) (store_lem (enc s) ku))
      | inr (e, m) ↦ inr (rw (encputs, n, ◌>>=◌, e) refl, m)
    ]

-- What kcn_uri_param_puts adds for a parameter with a value.
abbrev pub parameter : List ℕ → List ℕ → List ℕ
parameter param val = codes "&" ++ (param ++ (codes "=" ++ enc val))

-- Where the URI with a parameter and its NUL fits into a size_t, and whatever blocks the system gives
-- to each call, kcn_uri_param_puts with a value returns and stores no byte outside its block. Either it
-- answers true, and the URI is the one before, `&`, the name, `=` and the encoded value; or it
-- answers false, and a call is refused a block of some size.
pub param_puts_lem :
    (alloc : ℕ → ℕ → Bool) (param val : List ℕ) (ku : Uri)
    → IsExact ku
    → ku.urilen + length (parameter param val) + 1 < 2 ^ 64
    → (b : Bool) × (ku' : Uri) × (param_puts alloc param (some val) ku ≡ some (b, ku'))
      × IsExact ku'
      × (((b ≡ true) × (ku'.uri ≡ ku.uri ++ parameter param val)) ⊎ ((b ≡ false) × Refuses alloc))
unfolding param_puts
param_puts_lem alloc param val ku h fits =
    let n : length (parameter param val) ≡ length param + length (enc val) + 2 =
      omega (arith, length-append param (codes "=" ++ enc val)) in
    let u = extended (codes "&") ku in
    let x : IsExact u = extended-IsExact (codes "&") h in
    let v = extended param u in
    let y : IsExact v = extended-IsExact param x in
    let w = extended (codes "=") v in
    let z : IsExact w = extended-IsExact (codes "=") y in
    elim (puts_lem (alloc 0) (codes "&") ku (omega arith)) [
      | inr (e, m) ↦ (false, ku, rw (param_puts, ◌>>=◌, e) refl, h, inr (refl, (0, m.0, m.1)))
      | inl e ↦ elim (puts_lem (alloc 1) param u (omega arith)) [
        | inr (f, m) ↦
            (false, u, rw (param_puts, ◌>>=◌, e, ◌>>=◌, f) refl, x, inr (refl, (1, m.0, m.1)))
        | inl f ↦ elim (puts_lem (alloc 2) (codes "=") v (omega arith)) [
          | inr (g, m) ↦ (
            false,
            v,
            rw (param_puts, ◌>>=◌, e, ◌>>=◌, f, ◌>>=◌, g) refl,
            y,
            inr (refl, (2, m.0, m.1)),
          )
          | inl g ↦ elim (encputs_lem (alloc 3) val w (omega arith)) [
            | inr (i, m) ↦ (
              false,
              w,
              rw (param_puts, ◌>>=◌, e, ◌>>=◌, f, ◌>>=◌, g, i) refl,
              z,
              inr (refl, (3, m.0, m.1)),
            )
            | inl i ↦ (
              true,
              extended (enc val) w,
              rw (param_puts, ◌>>=◌, e, ◌>>=◌, f, ◌>>=◌, g, i) refl,
              extended-IsExact (enc val) z,
              inl (refl, rw (append_assoc, append_assoc, append_assoc) refl),
            )
          ]
        ]
      ]
    ]
