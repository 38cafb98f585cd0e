-- ===== src/Registry/Order.antt =====
-- The order of the list of databases in lib/kcn_db.c.
use mathlib.Core.Path.{subst}
use kcn.Common.{
  ℕ, ◌≤◌, ◌<◌, ◌≡◌, ◌≢◌, refl, sym, ap, ◌∙◌, List, [], ◌∷◌, ◌++◌, some, false, ltb, ◌==◌, ==_refl,
  inl, inr, All, Bool-cases, arith,
}
use kcn.Registry.Defs.{Entry, register, deregister}

-- Each entry's priority is at least that of every later one.
abbrev pub IsOrdered : List Entry → Type 0
IsOrdered [] = Unit
IsOrdered (kd ∷ l) = All (λ e. e.prio ≤ kd.prio) l × IsOrdered l

-- The list is empty or its first entry has a lower priority.
abbrev pub StartsBelow : ℕ → List Entry → Type 0
StartsBelow p [] = Unit
StartsBelow p (kd ∷ l) = kd.prio < p

==_neq : (a b : ℕ) → a ≢ b → (a == b) ≡ false
==_neq a b h = ground arith

-- kcn_db_register of an entry that is not in the list puts it behind all the entries, in their order,
-- whose priority is as high, before the first whose priority is lower.
pub register_lem :
    (new : Entry) (l : List Entry)
    → All (λ kd. kd.addr ≢ new.addr) l
    → (before : List Entry) × (after : List Entry) × (l ≡ before ++ after)
      × (register new l ≡ some (before ++ new ∷ after))
      × All (λ kd. new.prio ≤ kd.prio) before
      × StartsBelow new.prio after
unfolding register
register_lem new [] h = ([], [], refl, refl, tt, tt)
register_lem new (kd ∷ l) (hk, hl) = elim (Bool-cases (ltb kd.prio new.prio)) [
  | inl e ↦ ([], kd ∷ l, refl, rw (==_neq kd.addr new.addr hk, e) refl, tt, ground arith)
  | inr e ↦
      let (before, after, split, made, high, low) = register_lem new l hl in
      (
        kd ∷ before,
        after,
        ap (λ r. kd ∷ r) split,
        rw (==_neq kd.addr new.addr hk, e, made) refl,
        (ground arith, high),
        low,
      )
]

All-insert {κ} :
    {A : Type 0} (P : A → Type κ) (before after : List A) {x : A}
    → P x
    → All P (before ++ after)
    → All P (before ++ x ∷ after)
All-insert P [] after p h = (p, h)
All-insert P (b ∷ before) after p (hb, h) = (hb, All-insert P before after p h)

All-weaken :
    (p q : ℕ) → p ≤ q → (l : List Entry) → All (λ e. e.prio ≤ p) l → All (λ e. e.prio ≤ q) l
All-weaken p q h [] a = tt
All-weaken p q h (kd ∷ l) (ak, al) = (omega arith, All-weaken p q h l al)

insert-IsOrdered :
    (new : Entry) (before after : List Entry)
    → All (λ kd. new.prio ≤ kd.prio) before
    → StartsBelow new.prio after
    → IsOrdered (before ++ after)
    → IsOrdered (before ++ new ∷ after)
insert-IsOrdered new [] [] high low o = (tt, tt)
insert-IsOrdered new [] (kd ∷ l) high low (ok, ol) =
    let le : kd.prio ≤ new.prio = omega arith in
    ((le, All-weaken kd.prio new.prio le l ok), (ok, ol))
insert-IsOrdered new (b ∷ before) after (hb, high) low (ob, o) =
    (All-insert _ before after hb ob, insert-IsOrdered new before after high low o)

deregister-insert :
    (new : Entry) (before after : List Entry)
    → All (λ kd. kd.addr ≢ new.addr) (before ++ after)
    → deregister new (before ++ new ∷ after) ≡ before ++ after
unfolding deregister
deregister-insert new [] after h = rw (==_refl new.addr) refl
deregister-insert new (b ∷ before) after (hb, h) =
    rw (==_neq b.addr new.addr hb, deregister-insert new before after h) refl

-- On a list ordered by priority that does not hold the entry, kcn_db_register succeeds, the list that
-- it makes is ordered by priority, and kcn_db_deregister of the entry makes it the list of before.
pub register-IsOrdered :
    (new : Entry) (l : List Entry)
    → All (λ kd. kd.addr ≢ new.addr) l
    → IsOrdered l
    → (r : List Entry) × (register new l ≡ some r) × IsOrdered r × (deregister new r ≡ l)
register-IsOrdered new l h o =
    let (before, after, split, made, high, low) = register_lem new l h in
    (
      before ++ new ∷ after,
      made,
      insert-IsOrdered new before after high low (subst IsOrdered split o),
      deregister-insert new before after (subst (All (λ kd. kd.addr ≢ new.addr)) split h)
          ∙ sym split,
    )
