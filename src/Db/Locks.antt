-- ===== src/Db/Locks.antt =====
-- The lock of a table in kcndb_db_record_add and kcndb_db_search (kcndbd/kcndb_db.c).
use mathlib.Core.Path.{subst}
use kcn.Common.{
  ℕ, zero, suc, ◌+◌, ◌≡◌, ◌∙◌, refl, sym, Option, some, none, Bool, true, false, ltb, if◌then◌else◌,
  Outcome, ok, bad, List, arith, erange,
}
use kcn.Common.Fallible.{E, ◌>>=◌, ◌>>◌, pure, fail, focus, attempt, done}
use kcn.Eq.{Eq, time_lt}
use kcn.Db.Defs.{Record, Table, rdlock, wrlock, unlock, loc_size_increment, table_size_increment}
use kcn.Db.Locators.{entry_at, chain, chain_step, loc_append, loc_add, loc_lookup}
use kcn.Db.Records.{
  record_read, record_read_last, record_put, record_add_locked, record_add, hit, deliver, visit,
  take_record, search_loop, search_locked, wanted, on_db,
}
use kcn.Db.Records
use kcn.Db.Keeps.{SameLock, Leaves, Keeps, keeps_rules, Keeps-if, Keeps-bind, Keeps-pure}

entry_at-Keeps : (idx : ℕ) (loc : List ℕ) → Keeps (λ t. t) (entry_at idx loc)
unfolding entry_at
entry_at-Keeps idx loc = search keeps_rules depth 20

chain_step-Keeps :
    (loc : List ℕ) (rest : E Table ℕ) → Keeps (λ t. t) rest → Keeps (λ t. t) (chain_step loc rest)
unfolding chain_step
chain_step-Keeps loc rest h = search (keeps_rules, entry_at-Keeps) depth 20

chain-Keeps : (fuel : ℕ) (loc : List ℕ) → Keeps (λ t. t) (chain fuel loc)
unfolding chain
chain-Keeps zero loc = search keeps_rules
chain-Keeps (suc fuel) loc = chain_step-Keeps loc (chain fuel loc) (chain-Keeps fuel loc)

loc_append-Keeps : (loc : List ℕ) → Keeps (λ t. t) (loc_append loc)
unfolding loc_append loc_size_increment
loc_append-Keeps loc = search keeps_rules depth 30

loc_add-Keeps : (fuel : ℕ) (loc : List ℕ) → Keeps (λ t. t) (loc_add fuel loc)
unfolding loc_add
loc_add-Keeps fuel loc = search (keeps_rules, chain-Keeps, loc_append-Keeps) depth 20

loc_lookup-Keeps : (idx : ℕ) → Keeps (λ t. t) (loc_lookup idx)
unfolding loc_lookup
loc_lookup-Keeps idx = search keeps_rules depth 20

record_read-Keeps : Keeps (λ t. t) record_read
unfolding record_read
record_read-Keeps = search keeps_rules depth 20

record_read_last-Keeps : Keeps (λ t. t) record_read_last
unfolding record_read_last
record_read_last-Keeps = search (keeps_rules, record_read-Keeps) depth 20

record_put-Keeps : (r : Record) (idx : ℕ) → Keeps (λ t. t) (record_put r idx)
unfolding record_put table_size_increment
record_put-Keeps r idx = search keeps_rules depth 20

record_add_locked-Keeps : (fuel : ℕ) (r : Record) → Keeps (λ t. t) (record_add_locked fuel r)
unfolding record_add_locked
record_add_locked-Keeps fuel r =
    search (keeps_rules, record_read_last-Keeps, loc_add-Keeps, record_put-Keeps) depth 20

module _ {S : Type 0} (cb : Record → ℕ → S → Bool × S) where
  deliver-Keeps : (r : Record) (score : ℕ) → Keeps (λ p. p.0) (deliver cb r score)
  unfolding deliver
  deliver-Keeps r score = record { keeps = λ p. let (b, s') = cb r score p.1 in answered p b s' }
    where
      answered :
          (p : Table × S) (b : Bool) (s' : S)
          → Leaves (λ p. p.0) p (if b then some (ok tt, (p.0, s')) else some (bad 0, (p.0, s')))
      answered p true s' = (refl, refl)
      answered p false s' = (refl, refl)

  hit-Keeps : (r : Record) → Keeps (λ p. p.0) (hit cb r)
  unfolding hit
  hit-Keeps r = search (keeps_rules, loc_lookup-Keeps, deliver-Keeps) depth 20

  visit-Keeps :
      (o : Option Bool) (r : Record) (next more : E (Table × S) ℕ)
      → Keeps (λ p. p.0) next
      → Keeps (λ p. p.0) more
      → Keeps (λ p. p.0) (visit cb o r next more)
  unfolding visit
  visit-Keeps none r next more h k = search keeps_rules
  visit-Keeps (some false) r next more h k = h
  visit-Keeps (some true) r next more h k = search (keeps_rules, hit-Keeps)

  take_record-Keeps :
      (ke : Eq) (n : ℕ) (o : Outcome Record) (next more : E (Table × S) ℕ)
      → Keeps (λ p. p.0) next
      → Keeps (λ p. p.0) more
      → Keeps (λ p. p.0) (take_record cb ke n o next more)
  unfolding take_record
  take_record-Keeps ke n (bad e) next more h k = search keeps_rules
  take_record-Keeps ke n (ok r) next more h k = visit-Keeps (wanted ke r) r next more h k

  search_loop-Keeps :
      (fuel : ℕ) (ke : Eq) (max n : ℕ) → Keeps (λ p. p.0) (search_loop cb fuel ke max n)
  unfolding search_loop
  search_loop-Keeps zero ke max n = search keeps_rules
  search_loop-Keeps (suc fuel) ke max n =
      Keeps-if (λ p. p.0) (ltb n max)
        (Keeps-bind (λ p. p.0) {m = attempt (on_db cb record_read)}
          (search (keeps_rules, record_read-Keeps) depth 9)
          (λ o.
            take_record-Keeps ke n o _ _ (search_loop-Keeps fuel ke max n)
              (search_loop-Keeps fuel ke max (n + 1))))
        (Keeps-pure (λ p. p.0) n)

  search_locked-Keeps :
      (fuel : ℕ) (ke : Eq) (max : ℕ) → Keeps (λ p. p.0) (search_locked cb fuel ke max)
  unfolding search_locked
  search_locked-Keeps fuel ke max = search (keeps_rules, search_loop-Keeps) depth 20

unlocked :
    (t u : Table) (x : Option (Outcome ℕ × Table))
    → u.writer ≡ true
    → u.readers ≡ t.readers
    → t.writer ≡ false
    → Leaves (λ t. t) u x
    → Leaves (λ t. t) t ((do o ← attempt (λ _. x); unlock; done o) u)
unfolding unlock
unlocked t u none w r f h = tt
unlocked t u (some (o, v)) w r f (a, b) = rw (a ∙ w) (sym f, b ∙ r)

pub wrlock_lem :
    (t : Table)
    → t.writer ≡ false
    → t.readers ≡ 0
    → wrlock t ≡ some (ok tt, record t { writer = true })
unfolding wrlock
wrlock_lem t w n = ground arith

unlock_lem : (t : Table) → t.writer ≡ true → unlock t ≡ some (ok tt, record t { writer = false })
unfolding unlock
unlock_lem t w = ground arith

rdlock_lem :
    (t : Table) → t.writer ≡ false → rdlock t ≡ some (ok tt, record t { readers = t.readers + 1 })
unfolding rdlock
rdlock_lem t w = ground arith

-- When kcndb_db_record_add returns on a table whose lock nobody holds, whatever its outcome, nobody
-- holds the lock.
pub record_add-lock :
    (fuel : ℕ) (r : Record) (t : Table)
    → t.writer ≡ false
    → t.readers ≡ 0
    → Leaves (λ t. t) t (record_add fuel r t)
unfolding record_add
record_add-lock fuel r t w n =
    let u = record t { writer = true } in
    rw (◌>>◌, wrlock_lem t w n)
      (unlocked t u (record_add_locked fuel r u) refl refl w
        ((record_add_locked-Keeps fuel r).keeps u))

-- The lock after a search: one more reader where it succeeded, and as before where it failed.
abbrev pub SearchLeaves : {S : Type 0} → Table → Option (Outcome (Unit {0}) × (Table × S)) → Type 0
SearchLeaves t none = Unit
SearchLeaves t (some (ok u, p)) = (p.0.writer ≡ false) × (p.0.readers ≡ t.readers + 1)
SearchLeaves t (some (bad e, p)) = SameLock t p.0

finished :
    {S : Type 0} (t u : Table) (s : S) (x : Option (Outcome (Unit {0}) × (Table × S)))
    → u.writer ≡ false
    → u.readers ≡ t.readers + 1
    → t.writer ≡ false
    → Leaves {S = Table × S} (λ p. p.0) (u, s) x
    → SearchLeaves t (
        (do
          o ← attempt (λ _. x)
          elim o [
            | ok a ↦ pure tt
            | bad e ↦ (do focus (λ p. p.0) (λ t p. (t, p.1)) unlock; fail e)
          ])
          (u, s))
unfolding unlock
finished t u s none w r f h = tt
finished t u s (some (ok a, p)) w r f (c, d) = (c ∙ w, d ∙ r)
finished t u s (some (bad e, p)) w r f (c, d) = rw (c ∙ w) (sym f, omega (arith, d, r))

module _ {S : Type 0} (cb : Record → ℕ → S → Bool × S) where
  -- When kcndb_db_search returns on a table that nobody writes, a search that failed has left the lock
  -- as it was, and one that succeeded has left a reader more.
  pub search-lock :
      (fuel : ℕ) (ke : Eq) (max : ℕ) (t : Table) (s : S)
      → t.writer ≡ false
      → SearchLeaves t (Records.search cb fuel ke max (t, s))
  unfolding Records.search
  search-lock fuel ke max t s w =
      let u = record t { readers = t.readers + 1 } in
      rw (◌>>◌, on_db, rdlock_lem t w)
        (finished t u s (search_locked cb fuel ke max (u, s)) w refl w
          ((search_locked-Keeps cb fuel ke max).keeps (u, s)))

-- Where a search has succeeded, kcndb_db_record_add on the table that it leaves does not return: it waits
-- for the lock.
pub record_add-search :
    {S : Type 0} (cb : Record → ℕ → S → Bool × S) (fuel : ℕ) (ke : Eq) (max : ℕ) (t t' : Table)
    (s s' : S)
    → t.writer ≡ false
    → Records.search cb fuel ke max (t, s) ≡ some (ok tt, (t', s'))
    → (again : ℕ) (r : Record) → record_add again r t' ≡ none
unfolding record_add wrlock
record_add-search cb fuel ke max t t' s s' w e again r =
    let (a, b) = subst (SearchLeaves t) e (search-lock cb fuel ke max t s w) in
    let held : ltb 0 t'.readers ≡ true = ground arith in simp (◌>>◌, a, held) refl

-- A record that is older than the last one of the table is refused with ERANGE once that one has been
-- read, nothing is done after this, and nobody holds the lock.
pub record_add_older :
    (fuel : ℕ) (r last : Record) (t u : Table)
    → t.writer ≡ false
    → t.readers ≡ 0
    → record_read_last (record t { writer = true }) ≡ some (ok last, u)
    → time_lt r.time last.time ≡ true
    → record_add fuel r t ≡ some (bad erange, record u { writer = false })
unfolding record_add record_add_locked unlock
record_add_older fuel r last t u w n e o =
    let (a, b) =
      subst (Leaves (λ t. t) (record t { writer = true })) e
        (record_read_last-Keeps.keeps (record t { writer = true })) in
    rw (◌>>◌, wrlock_lem t w n, ◌>>=◌, e, o, ◌>>◌, unlock_lem u a) refl
