-- ===== src/Eq/Words.antt =====
-- The words of lib/kcn_eq.c for the types and operators.
use kcn.Common.{ℕ, zero, suc, ◌≤◌, ◌<◌, ◌≡◌, refl, List, Outcome, ok, bad, arith}
use kcn.Common.Text.{strcasecmp, tolower}
use kcn.Eq.Defs.{type_max, type_ntoa, type_aton}

-- A result handed to a function that can fail.
unfoldable pub and_then : {A B : Type 0} → Outcome A → (A → Outcome B) → Outcome B
and_then (ok x) f = f x
and_then (bad e) f = bad e

-- For each type, its name reads back as the type.
pub type_aton-type_ntoa : (t : ℕ) → 1 ≤ t → t < type_max → and_then (type_ntoa t) type_aton ≡ ok t
unfolding type_ntoa type_aton strcasecmp tolower and_then
type_aton-type_ntoa zero p q = ground arith
type_aton-type_ntoa (suc zero) p q = refl
type_aton-type_ntoa (suc (suc zero)) p q = refl
type_aton-type_ntoa (suc (suc (suc zero))) p q = refl
type_aton-type_ntoa (suc (suc (suc (suc zero)))) p q = refl
type_aton-type_ntoa (suc (suc (suc (suc (suc zero))))) p q = refl
type_aton-type_ntoa (suc (suc (suc (suc (suc (suc zero)))))) p q = refl
type_aton-type_ntoa (suc (suc (suc (suc (suc (suc (suc zero))))))) p q = refl
type_aton-type_ntoa (suc (suc (suc (suc (suc (suc (suc (suc t)))))))) p q = ground arith

-- Where kcn_eq_type_aton succeeds on a string, its answer is one of the seven types.
pub type_aton-IsType : (s : List ℕ) (t : ℕ) → type_aton s ≡ ok t → (1 ≤ t) × (t < type_max)
unfolding type_aton
type_aton-IsType s t e = ground arith
