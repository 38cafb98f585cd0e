-- ===== src/Common/State.antt =====
-- A computation on a state of type S. `none` stands for a failed `assert`, which aborts the
-- program, and for an access outside the memory that the program owns.
use mathlib.Core.Bool.{Bool, true, false}
use mathlib.Core.Option.{Option, none, some}

abbrev pub M : Type 0 → Type 0 → Type 0
M S A = S → Option (A × S)

infixl 5 ◌>>=◌ ◌>>◌
abbrev pub ◌>>=◌ : {S A B : Type 0} → M S A → (A → M S B) → M S B
◌>>=◌ m f s = elim (m s) [ none ↦ none | some (a, s') ↦ f a s' ]

abbrev pub ◌>>◌ : {S A B : Type 0} → M S A → M S B → M S B
◌>>◌ m k s = elim (m s) [ none ↦ none | some (a, s') ↦ k s' ]

abbrev pub pure : {S A : Type 0} → A → M S A
pure a s = some (a, s)

abbrev pub gets : {S A : Type 0} → (S → A) → M S A
gets f s = some (f s, s)

abbrev pub modify : {S : Type 0} → (S → S) → M S (Unit {0})
modify f s = some (tt, f s)

abbrev pub assert : {S : Type 0} → (S → Bool) → M S (Unit {0})
assert p s = elim (p s) [ true ↦ some (tt, s) | false ↦ none ]
