-- ===== src/Db/Keeps.antt =====
-- Steps that leave the lock of a table as it is (kcndbd/kcndb_db.c).
use kcn.Common.{
  ℕ, ◌≡◌, ◌∙◌, refl, if◌then◌else◌, Option, some, none, Bool, true, false, Outcome, ok, bad,
}
use kcn.Common.Fallible.{E, ◌>>=◌, ◌>>◌, pure, fail, gets, modify, focus, attempt, done}
use kcn.File.{File}
use kcn.Db.Defs.{Table, on_locs, on_table}

abbrev pub SameLock : Table → Table → Type 0
SameLock t t' = (t'.writer ≡ t.writer) × (t'.readers ≡ t.readers)

module _ {S : Type 0} (lock : S → Table) where
  -- The lock after a step that returns, whatever its outcome.
  abbrev pub Leaves : {A : Type 0} → S → Option (Outcome A × S) → Type 0
  Leaves s none = Unit
  Leaves s (some (o, s')) = SameLock (lock s) (lock s')

  pub record Keeps {A : Type 0} (m : E S A) : Type 0 where
    pub keeps : (s : S) → Leaves s (m s)

  Leaves-trans :
      {A : Type 0} (s s' : S) (x : Option (Outcome A × S))
      → SameLock (lock s) (lock s')
      → Leaves s' x
      → Leaves s x
  Leaves-trans s s' none h k = tt
  Leaves-trans s s' (some (o, u)) (a, b) (c, d) = (c ∙ a, d ∙ b)

  Leaves-bind :
      {A B : Type 0} (f : A → E S B) (s : S) (x : Option (Outcome A × S))
      → ((a : A) → Keeps (f a))
      → Leaves s x
      → Leaves s (
          (elim x as (λ x. Option (Outcome B × S)) [
            | none ↦ none
            | some (o, s') ↦ elim o [ ok a ↦ f a s' | bad e ↦ some (bad e, s') ]
          ]))
  Leaves-bind f s none k h = tt
  Leaves-bind f s (some (ok a, s')) k h = Leaves-trans s s' (f a s') h ((k a).keeps s')
  Leaves-bind f s (some (bad e, s')) k h = h

  pub Keeps-bind :
      {A B : Type 0} {m : E S A} {f : A → E S B}
      → Keeps m
      → ((a : A) → Keeps (f a))
      → Keeps (m >>= f)
  Keeps-bind {m} {f} h k = record { keeps = λ s. Leaves-bind f s (m s) k (h.keeps s) }

  pub Keeps-then : {A B : Type 0} {m : E S A} {k : E S B} → Keeps m → Keeps k → Keeps (m >> k)
  Keeps-then {m} {k} h l = record { keeps = λ s. Leaves-bind (λ a. k) s (m s) (λ a. l) (h.keeps s) }

  pub Keeps-pure : {A : Type 0} (a : A) → Keeps (pure a)
  Keeps-pure a = record { keeps = λ s. (refl, refl) }

  pub Keeps-fail : {A : Type 0} (e : ℕ) → Keeps {A = A} (fail e)
  Keeps-fail e = record { keeps = λ s. (refl, refl) }

  pub Keeps-gets : {A : Type 0} (f : S → A) → Keeps (gets f)
  Keeps-gets f = record { keeps = λ s. (refl, refl) }

  pub Keeps-if :
      {A : Type 0} (b : Bool) {m k : E S A} → Keeps m → Keeps k → Keeps (if b then m else k)
  Keeps-if true h l = h
  Keeps-if false h l = l

  Leaves-attempt :
      {A : Type 0} (s : S) (x : Option (Outcome A × S))
      → Leaves s x
      → Leaves s (
          (elim x as (λ x. Option (Outcome (Outcome A) × S)) [
            | none ↦ none
            | some (o, s') ↦ some (ok o, s')
          ]))
  Leaves-attempt s none h = tt
  Leaves-attempt s (some (o, s')) h = h

  pub Keeps-attempt : {A : Type 0} {m : E S A} → Keeps m → Keeps (attempt m)
  Keeps-attempt {m} h = record { keeps = λ s. Leaves-attempt s (m s) (h.keeps s) }

Leaves-focus :
    {A T : Type 0} (put : T → Table → Table) (t : Table) (x : Option (Outcome A × T))
    → ((f : T) → SameLock t (put f t))
    → Leaves
        (λ t. t)
        t
        ((elim x as (λ x. Option (Outcome A × Table)) [
          | none ↦ none
          | some (o, s) ↦ some (o, put s t)
        ]))
Leaves-focus put t none h = tt
Leaves-focus put t (some (o, f)) h = h f

pub Keeps-on_locs : {A : Type 0} (m : E File A) → Keeps (λ t. t) (on_locs m)
Keeps-on_locs m = record {
  keeps = λ t. Leaves-focus (λ f t. record t { locs = f }) t (m t.locs) (λ f. (refl, refl));
}

pub Keeps-on_table : {A : Type 0} (m : E File A) → Keeps (λ t. t) (on_table m)
Keeps-on_table m = record {
  keeps = λ t. Leaves-focus (λ f t. record t { table = f }) t (m t.table) (λ f. (refl, refl));
}

pub Keeps-step :
    {S : Type 0} (lock : S → Table) (f : S → S)
    → ((s : S) → SameLock (lock s) (lock (f s)))
    → Keeps lock (modify f)
Keeps-step lock f h = record { keeps = h }

pub Keeps-done : {S A : Type 0} (lock : S → Table) (o : Outcome A) → Keeps lock (done o)
Keeps-done lock o = record { keeps = λ s. (refl, refl) }

-- A step on the table of a search.
Leaves-on_db :
    {A S : Type 0} (t : Table) (s : S) (x : Option (Outcome A × Table))
    → Leaves (λ t. t) t x
    → Leaves
        (λ p. p.0)
        (t, s)
        ((elim x as (λ x. Option (Outcome A × (Table × S))) [
          | none ↦ none
          | some (o, u) ↦ some (o, (u, s))
        ]))
Leaves-on_db t s none h = tt
Leaves-on_db t s (some (o, u)) h = h

pub Keeps-on_db :
    {A S : Type 0} (m : E Table A)
    → Keeps (λ t. t) m
    → Keeps {S = Table × S} (λ p. p.0) (focus (λ p. p.0) (λ t p. (t, p.1)) m)
Keeps-on_db m h = record { keeps = λ p. Leaves-on_db p.0 p.1 (m p.0) (h.keeps p.0) }

pub Keeps-never : {S A : Type 0} (lock : S → Table) → Keeps {S = S} lock {A = A} (λ s. none)
Keeps-never lock = record { keeps = λ s. tt }

pub ruleset keeps_rules = (
  Keeps-bind, Keeps-then, Keeps-pure, Keeps-fail, Keeps-gets, Keeps-if, Keeps-attempt, Keeps-done,
  Keeps-step, Keeps-on_locs, Keeps-on_table, Keeps-on_db, Keeps-never,
)
