-- ===== src/Common/Lists.antt =====
-- Memory as lists: lengths and positions are native numbers, under the library's names.
use Prim.Native.Nat.{ℕ, zero, suc, ◌+◌, ◌-◌, ◌≤◌, min}
use mathlib.Core.Path.{◌≡◌, refl, ap, sym, ◌∙◌}
use mathlib.Core.List.{List, [], ◌∷◌, ◌++◌, append-nil}
use mathlib.Core.Option.{Option, none, some}
use native.Mathlib.Omega.{arith}
use native.Mathlib.Nat.{suc-add}

module _ {ℓ} {A : Type ℓ} where
  abbrev pub length : List A → ℕ
  length [] = 0
  length (x ∷ xs) = suc (length xs)

  abbrev pub get_elem? : List A → ℕ → Option A
  get_elem? [] i = none
  get_elem? (x ∷ xs) zero = some x
  get_elem? (x ∷ xs) (suc i) = get_elem? xs i

  -- A write out of bounds changes nothing.
  abbrev pub set : List A → ℕ → A → List A
  set [] i v = []
  set (x ∷ xs) zero v = v ∷ xs
  set (x ∷ xs) (suc i) v = x ∷ set xs i v

  abbrev pub take : ℕ → List A → List A
  take zero xs = []
  take (suc n) [] = []
  take (suc n) (x ∷ xs) = x ∷ take n xs

  abbrev pub drop : ℕ → List A → List A
  drop zero xs = xs
  drop (suc n) [] = []
  drop (suc n) (x ∷ xs) = drop n xs

  abbrev pub replicate : ℕ → A → List A
  replicate zero a = []
  replicate (suc n) a = a ∷ replicate n a

  -- memcpy: the list `ys` is written over `xs` from position `i` on, and never past its end.
  abbrev pub splice : List A → ℕ → List A → List A
  splice xs i [] = xs
  splice [] i (y ∷ ys) = []
  splice (x ∷ xs) zero (y ∷ ys) = y ∷ splice xs zero ys
  splice (x ∷ xs) (suc i) (y ∷ ys) = x ∷ splice xs i (y ∷ ys)

  pub length-append : (xs ys : List A) → length (xs ++ ys) ≡ length xs + length ys
  length-append [] ys = omega arith
  length-append (x ∷ xs) ys = omega (arith, length-append xs ys)

  pub length-set : (xs : List A) (i : ℕ) (v : A) → length (set xs i v) ≡ length xs
  length-set [] i v = refl
  length-set (x ∷ xs) zero v = refl
  length-set (x ∷ xs) (suc i) v = ap suc (length-set xs i v)

  pub length-splice : (xs : List A) (i : ℕ) (ys : List A) → length (splice xs i ys) ≡ length xs
  length-splice xs i [] = refl
  length-splice [] i (y ∷ ys) = refl
  length-splice (x ∷ xs) zero (y ∷ ys) = ap suc (length-splice xs zero ys)
  length-splice (x ∷ xs) (suc i) (y ∷ ys) = ap suc (length-splice xs i (y ∷ ys))

  pub length-take : (n : ℕ) (xs : List A) → length (take n xs) ≡ min n (length xs)
  length-take zero xs = omega arith
  length-take (suc n) [] = omega arith
  length-take (suc n) (x ∷ xs) = omega (arith, length-take n xs)

  pub length-drop : (n : ℕ) (xs : List A) → length (drop n xs) ≡ length xs - n
  length-drop zero xs = omega arith
  length-drop (suc n) [] = omega arith
  length-drop (suc n) (x ∷ xs) = omega (arith, length-drop n xs)

  pub length-replicate : (n : ℕ) (a : A) → length (replicate n a) ≡ n
  length-replicate zero a = refl
  length-replicate (suc n) a = ap suc (length-replicate n a)

  pub take-length : (xs : List A) → take (length xs) xs ≡ xs
  take-length [] = refl
  take-length (x ∷ xs) = ap (λ r. x ∷ r) (take-length xs)

  pub take-all : (n : ℕ) (xs : List A) → length xs ≤ n → take n xs ≡ xs
  take-all zero [] h = refl
  take-all zero (x ∷ xs) h = absurd (omega arith)
  take-all (suc n) [] h = refl
  take-all (suc n) (x ∷ xs) h = ap (λ r. x ∷ r) (take-all n xs (omega arith))

  pub take-append-drop : (n : ℕ) (xs : List A) → take n xs ++ drop n xs ≡ xs
  take-append-drop zero xs = refl
  take-append-drop (suc n) [] = refl
  take-append-drop (suc n) (x ∷ xs) = ap (λ r. x ∷ r) (take-append-drop n xs)

  pub take-append_left : (xs ys : List A) → take (length xs) (xs ++ ys) ≡ xs
  take-append_left [] ys = refl
  take-append_left (x ∷ xs) ys = ap (λ r. x ∷ r) (take-append_left xs ys)

  pub take-append_le : (n : ℕ) (xs ys : List A) → n ≤ length xs → take n (xs ++ ys) ≡ take n xs
  take-append_le zero xs ys h = refl
  take-append_le (suc n) [] ys h = absurd (omega arith)
  take-append_le (suc n) (x ∷ xs) ys h = ap (λ r. x ∷ r) (take-append_le n xs ys (omega arith))

  pub drop-append_left : (xs ys : List A) → drop (length xs) (xs ++ ys) ≡ ys
  drop-append_left [] ys = refl
  drop-append_left (x ∷ xs) ys = drop-append_left xs ys

  pub splice-append :
      (xs ys zs ws : List A)
      → length ys ≡ length zs
      → splice (xs ++ (ys ++ ws)) (length xs) zs ≡ xs ++ (zs ++ ws)
  splice-append [] [] [] ws h = refl
  splice-append [] [] (z ∷ zs) ws h = absurd (omega arith)
  splice-append [] (y ∷ ys) [] ws h = absurd (omega arith)
  splice-append [] (y ∷ ys) (z ∷ zs) ws h =
      ap (λ r. z ∷ r) (splice-append [] ys zs ws (omega arith))
  splice-append (x ∷ xs) [] [] ws h = refl
  splice-append (x ∷ xs) [] (z ∷ zs) ws h = absurd (omega arith)
  splice-append (x ∷ xs) (y ∷ ys) [] ws h = absurd (omega arith)
  splice-append (x ∷ xs) (y ∷ ys) (z ∷ zs) ws h =
      ap (λ r. x ∷ r) (splice-append xs (y ∷ ys) (z ∷ zs) ws h)

  pub drop-all : (n : ℕ) (xs : List A) → length xs ≤ n → drop n xs ≡ []
  drop-all zero [] h = refl
  drop-all zero (x ∷ xs) h = absurd (omega arith)
  drop-all (suc n) [] h = refl
  drop-all (suc n) (x ∷ xs) h = drop-all n xs (omega arith)

  pub drop-nil : (n : ℕ) → drop n [] ≡ []
  drop-nil zero = refl
  drop-nil (suc n) = refl

  pub take-nil : (n : ℕ) → take n [] ≡ []
  take-nil zero = refl
  take-nil (suc n) = refl

  pub drop-drop : (n m : ℕ) (l : List A) → drop n (drop m l) ≡ drop (m + n) l
  drop-drop n zero l = ap (λ k. drop k l) (omega arith)
  drop-drop n (suc m) [] = ground (arith, drop-nil n, drop-nil (suc m + n))
  drop-drop n (suc m) (x ∷ l) = rw suc-add (drop-drop n m l)

  pub drop-take : (n m : ℕ) (l : List A) → drop n (take m l) ≡ take (m - n) (drop n l)
  drop-take zero m l = ap (λ k. take k l) (omega arith)
  drop-take (suc n) zero l = ground arith
  drop-take (suc n) (suc m) [] = ground (arith, take-nil (suc m - suc n))
  drop-take (suc n) (suc m) (x ∷ l) = ground (arith, drop-take n m l)

  pub splice-front :
      (xs l : List A) → length xs ≤ length l → splice l 0 xs ≡ xs ++ drop (length xs) l
  splice-front [] l h = refl
  splice-front (x ∷ xs) [] h = absurd (omega arith)
  splice-front (x ∷ xs) (y ∷ l) h = ap (λ r. x ∷ r) (splice-front xs l (omega arith))

  -- A slice up to the place where `xs` is written grows by `xs`.
  pub take-splice :
      (l : List A) (j : ℕ) (xs : List A)
      → j + length xs ≤ length l
      → take (j + length xs) (splice l j xs) ≡ take j l ++ xs
  take-splice l j [] k = let e : j + 0 ≡ j = omega arith in rw (append-nil, e)
  take-splice [] j (y ∷ ys) k = absurd (omega arith)
  take-splice (x ∷ l) zero (y ∷ ys) k =
      let e : 0 + suc (length ys) ≡ suc (0 + length ys) = omega arith in
      rw e (ap (λ r. y ∷ r) (take-splice l zero ys (omega arith)))
  take-splice (x ∷ l) (suc j) (y ∷ ys) k =
      rw suc-add (ap (λ r. x ∷ r) (take-splice l j (y ∷ ys) (omega arith)))

  pub drop-append_le :
      (i : ℕ) (xs ys : List A) → i ≤ length xs → drop i (xs ++ ys) ≡ drop i xs ++ ys
  drop-append_le zero xs ys h = refl
  drop-append_le (suc i) [] ys h = absurd (omega arith)
  drop-append_le (suc i) (x ∷ xs) ys h = drop-append_le i xs ys (omega arith)

  pub slice-splice :
      (l : List A) (i j : ℕ) (xs : List A)
      → i ≤ j
      → j + length xs ≤ length l
      → take (j + length xs - i) (drop i (splice l j xs)) ≡ take (j - i) (drop i l) ++ xs
  slice-splice l i j xs h k =
      sym (drop-take i (j + length xs) (splice l j xs))
      ∙ rw (take-splice l j xs k, drop-append_le i (take j l) xs (omega (arith, length-take j l)))
          (ap (λ r. r ++ xs) (drop-take i j l))

  pub take-append_add : (xs ys : List A) (n : ℕ) → take (length xs + n) (xs ++ ys) ≡ xs ++ take n ys
  take-append_add [] ys n = ap (λ k. take k ys) (omega arith)
  take-append_add (x ∷ xs) ys n = rw suc-add (ap (λ r. x ∷ r) (take-append_add xs ys n))

  pub take-take : (n m : ℕ) (l : List A) → n ≤ m → take n (take m l) ≡ take n l
  take-take zero m l h = refl
  take-take (suc n) zero l h = absurd (omega arith)
  take-take (suc n) (suc m) [] h = refl
  take-take (suc n) (suc m) (x ∷ l) h = ap (λ r. x ∷ r) (take-take n m l (omega arith))

  splice-nil : (i : ℕ) (zs : List A) → splice [] i zs ≡ []
  splice-nil i [] = refl
  splice-nil i (z ∷ zs) = refl

  splice-cons :
      (x : A) (l : List A) (i : ℕ) (zs : List A) → splice (x ∷ l) (suc i) zs ≡ x ∷ splice l i zs
  splice-cons x l i [] = refl
  splice-cons x l i (z ∷ zs) = refl

  -- Two writes one behind the other are one write.
  pub splice-splice :
      (l : List A) (i : ℕ) (ys zs : List A)
      → splice (splice l i ys) (i + length ys) zs ≡ splice l i (ys ++ zs)
  splice-splice l i [] zs = ap (λ k. splice l k zs) (omega arith)
  splice-splice [] i (y ∷ ys) zs = splice-nil (i + suc (length ys)) zs
  splice-splice (x ∷ l) zero (y ∷ ys) zs =
      let e : 0 + suc (length ys) ≡ suc (0 + length ys) = omega arith in
      rw (e, splice-cons) (ap (λ r. y ∷ r) (splice-splice l zero ys zs))
  splice-splice (x ∷ l) (suc i) (y ∷ ys) zs =
      rw (suc-add, splice-cons) (ap (λ r. x ∷ r) (splice-splice l i (y ∷ ys) zs))

  -- Every element satisfies P. It computes to a tuple, which the tactics read.
  abbrev pub All {κ} : (A → Type κ) → List A → Type κ
  All P [] = Unit
  All P (x ∷ xs) = P x × All P xs
