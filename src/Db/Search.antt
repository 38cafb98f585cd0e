-- ===== src/Db/Search.antt =====
-- kcndb_db_search against a specification on the records of a table (kcndbd/kcndb_db.c).
use kcn.Common.{
  ℕ, ◌+◌, ◌-◌, ◌<◌, ◌≡◌, refl, ap, ◌∙◌, List, length, some, Bool, true, false, Bool-cases, inl, inr,
  ◌==◌, if◌then◌else◌, Outcome, ok, bad, arith, esrch,
}
use kcn.Common.Fallible.{E, ◌>>=◌, ◌>>◌, attempt, focus, pure, fail}
use kcn.Eq.{Eq}
use kcn.Buf.Cursor.{reset_lem}
use kcn.File.{File}
use kcn.Db.Defs.{Record, Table, unlock}
use kcn.Db.Lookup.{seek_quiet}
use kcn.Db.Records.{on_db, search_loop, search_locked, search}
use kcn.Db.Selection.{selected, answer, counted, Holds, IsTable, rdlock_free}
use kcn.Db.Rounds.{handed, rounds_lem}

module _ {S : Type 0} (cb : Record → ℕ → S → Bool × S) where
  checked :
      (b : Bool) (n : ℕ) (u : Table) (s : S) (m : E (Table × S) ℕ) (p : Table × S)
      → m p ≡ some (counted b n, (u, s))
      → (m >>= λ n. if n == 0 then fail esrch else pure tt) p ≡ some (answer b n, (u, s))
  checked false n u s m p e = rw (◌>>=◌, e) refl
  checked true n u s m p e = elim (Bool-cases (n == 0)) [
    | inl y ↦ rw (◌>>=◌, e, y) refl
    | inr y ↦ rw (◌>>=◌, e, y) refl
  ]

  -- The search under the lock.
  locked_lem :
      (rs : List Record) (fuel : ℕ) (ke : Eq) (max : ℕ) (t : Table) (s : S)
      → length rs < fuel
      → IsTable ke rs t
      → (u : Table) × (search_locked cb fuel ke max (t, s)
          ≡ some (
            answer (handed cb (selected ke max rs) s).0 (length (selected ke max rs)),
            (u, (handed cb (selected ke max rs) s).1),
          ))
  unfolding search_locked
  locked_lem rs fuel ke max t s l h =
      let f0 : File = record (t.table) { offset = 0 } in
      let w = seek_quiet 0 t.table h.table_quiet.1 (omega arith) in
      let (r, v) = reset_lem 0 h.table_quiet.0.valid (omega arith) in
      let f1 : File = record f0 { buf = record (f0.buf) { cp = 0; sp = 0; ep = 0 } } in
      let t1 : Table = record t { table = f1 } in
      let k : Holds ke rs t1 = record {
        table_quiet = (record { valid = v; errnos = h.table_quiet.0.errnos }, h.table_quiet.1);
        locs_quiet = h.locs_quiet;
        room = h.room;
        cursor = refl;
        to_come = h.content;
        stored = h.stored;
      } in
      let (u, e) = rounds_lem cb rs fuel ke max 0 max {t = t1} s (omega arith) l k in
      let b = (handed cb (selected ke max rs) s).0 in
      let z : 0 + length (selected ke max rs) ≡ length (selected ke max rs) = omega arith in
      (
        u,
        rw (◌>>◌, focus, w, r)
            (checked b (length (selected ke max rs)) u _ (search_loop cb fuel ke max 0) (t1, s)
              (e ∙ ap (λ j. some (counted b j, (u, (handed cb (selected ke max rs) s).1))) z)),
      )

  unlock_returns : (t : Table) → (u : Table) × (unlock t ≡ some (ok tt, u))
  unfolding unlock
  unlock_returns t = elim (Bool-cases t.writer) [
    | inl w ↦ (record t { writer = false }, rw w refl)
    | inr w ↦ (record t { readers = t.readers - 1 }, rw w refl)
  ]

  unlocked_lem :
      (o : Outcome (Unit {0})) (u : Table) (s : S) (m : E (Table × S) (Unit {0})) (p : Table × S)
      → m p ≡ some (o, (u, s))
      → (v : Table) × ((attempt m >>= λ o. elim o as (λ o. E (Table × S) (Unit {0})) [
        | ok u ↦ pure tt
        | bad e ↦ (do on_db cb unlock; fail e)
      ])
            p
          ≡ some (o, (v, s)))
  unlocked_lem (ok tt) u s m p e = (u, rw (◌>>=◌, attempt, e) refl)
  unlocked_lem (bad x) u s m p e =
      let (v, f) = unlock_returns u in (v, rw (◌>>=◌, attempt, e, ◌>>◌, focus, f) refl)

  -- kcndb_db_search on a table that holds records which fit their bytes, whose locators are in the file
  -- of locators with room in its block, and with a known operator, where nobody writes, the
  -- calls of the system do all they can, and the fuel exceeds the number of records. The search
  -- returns. It hands to its callback the records that match the condition, with their locators, in
  -- the order of the file and at most as many as asked for, until the callback gives up; then it
  -- fails without an errno of its own. Otherwise it fails with ESRCH if no record matches, and
  -- succeeds if one does.
  pub search-selected :
      (rs : List Record) (fuel : ℕ) (ke : Eq) (max : ℕ) (t : Table) (s : S)
      → length rs < fuel
      → IsTable ke rs t
      → (u : Table) × (search cb fuel ke max (t, s)
          ≡ some (
            answer (handed cb (selected ke max rs) s).0 (length (selected ke max rs)),
            (u, (handed cb (selected ke max rs) s).1),
          ))
  unfolding search
  search-selected rs fuel ke max t s l h =
      let t1 : Table = record t { readers = t.readers + 1 } in
      let k : IsTable ke rs t1 = record {
        table_quiet = h.table_quiet;
        locs_quiet = h.locs_quiet;
        room = h.room;
        content = h.content;
        stored = h.stored;
        unlocked = h.unlocked;
      } in
      let (u, e) = locked_lem rs fuel ke max t1 s l k in
      let (v, f) = unlocked_lem _ u _ (search_locked cb fuel ke max) (t1, s) e in
      (v, rw (search, ◌>>◌, focus, rdlock_free t h.unlocked) f)
