-- ===== src/Token/Split.antt =====
-- What kcn_token_get makes of a line (lib/kcn_token.c).
use kcn.Common.{
  ℕ, suc, ◌-◌, ◌≡◌, refl, ap, ◌∙◌, List, [], ◌∷◌, ◌++◌, length, Option, some, none, true, false,
  ◌==◌, All, Bool-cases, inl, inr, arith, length-append, take-append_left,
}
use kcn.Common.Text.{isblank}
use kcn.Token.Defs.{Token, skip_blanks, skip_word, word, get}

abbrev pub IsBlank : ℕ → Type 0
IsBlank c = isblank c ≡ true

abbrev pub IsInk : ℕ → Type 0
IsInk c = isblank c ≡ false

-- A rest is empty or starts with a blank; a line is empty or starts with another byte.
abbrev pub Ends : List ℕ → Type 0
Ends [] = Unit
Ends (c ∷ s) = IsBlank c

abbrev Starts : List ℕ → Type 0
Starts [] = Unit
Starts (c ∷ s) = IsInk c

skip_blanks_lem :
    (s : List ℕ) → (b : List ℕ) × (s ≡ b ++ skip_blanks s) × All IsBlank b × Starts (skip_blanks s)
unfolding skip_blanks
skip_blanks_lem [] = ([], refl, tt, tt)
skip_blanks_lem (c ∷ s) = elim (Bool-cases (isblank c)) [
  | inl e ↦
      let (b, p, h, q) = skip_blanks_lem s in (c ∷ b, rw e (ap (λ r. c ∷ r) p), (e, h), rw e q)
  | inr e ↦ ([], rw e refl, tt, rw e e)
]

skip_word_lem :
    (s : List ℕ) → (w : List ℕ) × (s ≡ w ++ skip_word s) × All IsInk w × Ends (skip_word s)
unfolding skip_word
skip_word_lem [] = ([], refl, tt, tt)
skip_word_lem (c ∷ s) = elim (Bool-cases (isblank c)) [
  | inl e ↦ ([], rw e refl, tt, rw e e)
  | inr e ↦ let (w, p, h, q) = skip_word_lem s in (c ∷ w, rw e (ap (λ r. c ∷ r) p), (e, h), rw e q)
]

-- A token is NULL just where it is empty.
abbrev pub token : List ℕ → Option (List ℕ)
token [] = none
token (c ∷ w) = some (c ∷ w)

word-append : (w r : List ℕ) → word (w ++ r) (length (w ++ r) - length r) ≡ token w
unfolding word
word-append [] r = let e : length r - length r ≡ 0 = omega arith in rw e refl
word-append (c ∷ w) r =
    let n : suc (length (w ++ r)) - length r ≡ suc (length w) = omega (arith, length-append w r) in
    let z : (suc (length w) == 0) ≡ false = ground arith in
    rw (n, z) (ap some (take-append_left (c ∷ w) r))

-- What kcn_token_get gives where it has found the start `s` and the end `r`.
between : List ℕ → List ℕ → Option (List ℕ) × Token
between s r = (word s (length s - length r), record { sp = s; ep = r })

between-append : (w r : List ℕ) → between (w ++ r) r ≡ (token w, record { sp = w ++ r; ep = r })
unfolding between
between-append w r = let e = word-append w r in rw e refl

-- kcn_token_get splits what is left of the line into blanks, bytes other than blanks, and a rest that
-- is empty or starts with a blank: the token is the bytes between, NULL where there are none, and the
-- rest is what is left.
pub get-token :
    (kt : Token)
    → (b : List ℕ) × (w : List ℕ) × (r : List ℕ) × (kt.ep ≡ b ++ (w ++ r))
      × All IsBlank b
      × All IsInk w
      × Ends r
      × (get kt ≡ (token w, record { sp = w ++ r; ep = r }))
unfolding get between
get-token kt =
    let (b, p, h, q) = skip_blanks_lem kt.ep in
    let (w, d, i, e) = skip_word_lem (skip_blanks kt.ep) in
    (
      b,
      w,
      skip_word (skip_blanks kt.ep),
      p ∙ ap (λ l. b ++ l) d,
      h,
      i,
      e,
      ap (λ l. between l (skip_word (skip_blanks kt.ep))) d
          ∙ between-append w (skip_word (skip_blanks kt.ep)),
    )
