-- ===== src/Common/Fallible.antt =====
-- A computation on a state of type S that returns a value or fails with an errno. `none` stands for an
-- abort, an access outside the memory of the program, or a call that waits for ever.
use mathlib.Core.Option.{Option, none, some}
use Prim.Native.Nat.{ℕ}
use kcn.Common.State.{M}
use kcn.Common.Errno.{Outcome, ok, bad}

abbrev pub E : Type 0 → Type 0 → Type 0
E S A = S → Option (Outcome A × S)

infixl 5 ◌>>=◌ ◌>>◌
abbrev pub ◌>>=◌ : {S A B : Type 0} → E S A → (A → E S B) → E S B
◌>>=◌ m f s = elim (m s) [
  | none ↦ none
  | some (o, s') ↦ elim o [ ok a ↦ f a s' | bad e ↦ some (bad e, s') ]
]

abbrev pub ◌>>◌ : {S A B : Type 0} → E S A → E S B → E S B
◌>>◌ m k s = elim (m s) [
  | none ↦ none
  | some (o, s') ↦ elim o [ ok a ↦ k s' | bad e ↦ some (bad e, s') ]
]

abbrev pub pure : {S A : Type 0} → A → E S A
pure a s = some (ok a, s)

abbrev pub fail : {S A : Type 0} → ℕ → E S A
fail e s = some (bad e, s)

abbrev pub gets : {S A : Type 0} → (S → A) → E S A
gets f s = some (ok (f s), s)

abbrev pub modify : {S : Type 0} → (S → S) → E S (Unit {0})
modify f s = some (ok tt, f s)

-- A step that only aborts or succeeds, on a part of the state.
abbrev pub lift : {S T A : Type 0} → (T → S) → (S → T → T) → M S A → E T A
lift get put m t = elim (m (get t)) [ none ↦ none | some (a, s) ↦ some (ok a, put s t) ]

-- A step that can fail, on a part of the state.
abbrev pub focus : {S T A : Type 0} → (T → S) → (S → T → T) → E S A → E T A
focus get put m t = elim (m (get t)) [ none ↦ none | some (o, s) ↦ some (o, put s t) ]

-- The outcome of a step as a value.
abbrev pub attempt : {S A : Type 0} → E S A → E S (Outcome A)
attempt m s = elim (m s) [ none ↦ none | some (o, s') ↦ some (ok o, s') ]

abbrev pub done : {S A : Type 0} → Outcome A → E S A
done o s = some (o, s)
