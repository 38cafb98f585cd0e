-- ===== src/Token/Defs.antt =====
-- The definitions of lib/kcn_token.c. A pointer into the string is the list of the bytes from it on.
use kcn.Common.{
  ℕ, ◌-◌, List, [], ◌∷◌, length, take, Option, some, none, Bool, true, false, ◌==◌, if◌then◌else◌,
}
use kcn.Common.Text.{isblank}

-- struct kcn_token
pub record Token : Type 0 where
  pub sp : List ℕ
  pub ep : List ℕ

-- kcn_token_new where malloc() gives the structure
unfoldable pub new : Bool → List ℕ → Option Token
new true s = some (record { sp = s; ep = s })
new false s = none

unfoldable pub skip_blanks : List ℕ → List ℕ
unfolding isblank
skip_blanks [] = []
skip_blanks (c ∷ s) = let rest = skip_blanks s in if isblank c then rest else c ∷ s

unfoldable pub skip_word : List ℕ → List ℕ
unfolding isblank
skip_word [] = []
skip_word (c ∷ s) = let rest = skip_word s in if isblank c then c ∷ s else rest

-- The token, or NULL where its length is zero.
unfoldable pub word : List ℕ → ℕ → Option (List ℕ)
word s n = if n == 0 then none else some (take n s)

unfoldable pub get : Token → Option (List ℕ) × Token
unfolding skip_blanks skip_word word
get kt =
    let sp = skip_blanks kt.ep in
    let ep = skip_word sp in (word sp (length sp - length ep), record { sp = sp; ep = ep })
