-- ===== src/Db/Rounds.antt =====
-- The loop of kcndb_db_search (kcndbd/kcndb_db.c): its rounds on the records to come.
use mathlib.Core.Path.{subst}
use kcn.Common.{
  ℕ, zero, suc, ◌+◌, ◌<◌, ◌≡◌, refl, sym, ap, ◌∙◌, List, [], ◌∷◌, length, Option, some, none, Bool,
  true, false, Bool-cases, inl, inr, lt→ltb, le→ltb, if◌then◌else◌, Outcome, ok, bad, arith,
  eshutdown,
}
use kcn.Common.Fallible.{E, ◌>>=◌, ◌>>◌, attempt, focus}
use kcn.Eq.{Eq}
use kcn.File.{File}
use kcn.Db.Defs.{Record, Table}
use kcn.Db.Locators.{loc_lookup}
use kcn.Db.Lookup.{loc_lookup_lem}
use kcn.Db.Reading.{record_read-record_bytes}
use kcn.Db.Records.{wanted, op_match, record_read, deliver, hit, visit, take_record, search_loop}
use kcn.Db.Selection.{
  select, selected, counted, all_bytes, IsStored, Holds, record_read_end, none_left,
}

module _ {S : Type 0} (cb : Record → ℕ → S → Bool × S) where
  -- The callback on some records in turn, until it gives up.
  abbrev pub handed : List Record → S → Bool × S
  handed [] s = (true, s)
  handed (r ∷ rs) s = if (cb r 0 s).0 then handed rs (cb r 0 s).1 else (false, (cb r 0 s).1)

  -- What the rounds of a search leave, with `n` matches before them.
  abbrev Rounds : ℕ → List Record → S → Option (Outcome ℕ × (Table × S)) → Type 0
  Rounds n rs s m =
      (t : Table) × (m ≡ some (counted (handed rs s).0 (n + length rs), (t, (handed rs s).1)))

  -- A round that ends the loop.
  last_round :
      (fuel : ℕ) (ke : Eq) (max n e : ℕ) (t u : Table) (s : S)
      → n < max
      → record_read t ≡ some (bad e, u)
      → e ≡ eshutdown
      → search_loop cb (suc fuel) ke max n (t, s) ≡ some (ok n, (u, s))
  unfolding search_loop take_record
  last_round fuel ke max n e t u s h r z =
      rw (search_loop, lt→ltb n max h, ◌>>=◌, attempt, focus, r, z) refl

  -- A round with a record.
  round_lem :
      (fuel : ℕ) (ke : Eq) (max n : ℕ) (r : Record) (t u : Table) (s : S) (o : Option Bool)
      → n < max
      → record_read t ≡ some (ok r, u)
      → wanted ke r ≡ o
      → search_loop cb (suc fuel) ke max n (t, s)
        ≡ visit cb o r (search_loop cb fuel ke max n) (search_loop cb fuel ke max (n + 1)) (u, s)
  unfolding search_loop take_record
  round_lem fuel ke max n r t u s o h e z =
      rw (search_loop, lt→ltb n max h, ◌>>=◌, attempt, focus, e, z) refl

  hit_found :
      (r : Record) (l : List ℕ) (t u : Table) (s : S) (more : E (Table × S) ℕ)
      → loc_lookup r.locidx t ≡ some (ok l, u)
      → (hit cb r >> more) (t, s) ≡ (deliver cb (record r { loc = l }) 0 >> more) (u, s)
  unfolding hit
  hit_found r l t u s more e = rw (hit, ◌>>◌, ◌>>=◌, focus, e) refl

  delivered :
      (b : Bool) (r : Record) (u : Table) (s : S) (more : E (Table × S) ℕ)
      → (cb r 0 s).0 ≡ b
      → (deliver cb r 0 >> more) (u, s)
        ≡ (if b then more (u, (cb r 0 s).1) else some (bad 0, (u, (cb r 0 s).1)))
  unfolding deliver
  delivered true r u s more e = rw (◌>>◌, deliver, e) refl
  delivered false r u s more e = rw (◌>>◌, deliver, e) refl

  handed_on :
      (r : Record) (rs : List Record) (n : ℕ) (s : S) (m : Option (Outcome ℕ × (Table × S)))
      → (cb r 0 s).0 ≡ true
      → Rounds (n + 1) rs ((cb r 0 s).1) m
      → Rounds n (r ∷ rs) s m
  handed_on r rs n s m h (t, e) =
      let k : n + 1 + length rs ≡ n + suc (length rs) = omega arith in
      (
        t,
        e
            ∙ rw h (
                ap
                  (λ j.
                    some (counted (handed rs (cb r 0 s).1).0 j, (t, (handed rs (cb r 0 s).1).1)))
                  k),
      )

  gave_up :
      (r : Record) (rs : List Record) (n : ℕ) (u : Table) (s : S)
      (m : Option (Outcome ℕ × (Table × S)))
      → (cb r 0 s).0 ≡ false
      → m ≡ some (bad 0, (u, (cb r 0 s).1))
      → Rounds n (r ∷ rs) s m
  gave_up r rs n u s m h e = (u, e ∙ rw h refl)

  -- A record that is selected, with the rounds after it.
  hit_lem :
      (ke : Eq) (r : Record) (rs rest : List Record) (n : ℕ) (more : E (Table × S) ℕ) {t : Table}
      (s : S)
      → Holds ke rs t
      → IsStored ke t.locs.content t.locs.buf.size t.locsize r
      → ((u : Table) (s' : S) → Holds ke rs u → Rounds (n + 1) rest s' (more (u, s')))
      → Rounds n (r ∷ rest) s ((hit cb (record r { loc = [] }) >> more) (t, s))
  hit_lem ke r rs rest n more {t} s h i f =
      let (g, e, q, c, z) = loc_lookup_lem r.locidx r.loc t h.locs_quiet i.locator i.in_file in
      let u : Table = record t { locs = g } in
      let k : Holds ke rs u = record {
        table_quiet = h.table_quiet;
        locs_quiet = q;
        room = h.room;
        cursor = h.cursor;
        to_come = h.to_come;
        stored = rw (c, z) h.stored;
      } in
      let m = hit_found (record r { loc = [] }) r.loc t u s more e in
      elim (Bool-cases ((cb r 0 s).0)) [
        | inl y ↦
            subst (λ x. Rounds n (r ∷ rest) s x) (sym (m ∙ delivered true r u s more y))
              (handed_on r rest n s _ y (f u ((cb r 0 s).1) k))
        | inr y ↦ gave_up r rest n u s _ y (m ∙ delivered false r u s more y)
      ]

  visit_lem :
      (ke : Eq) (o : Option Bool) (r : Record) (rs others rest : List Record) (n : ℕ)
      (next more : E (Table × S) ℕ) {t : Table} (s : S)
      → wanted ke r ≡ o
      → Holds ke rs t
      → IsStored ke t.locs.content t.locs.buf.size t.locsize r
      → Rounds n others s (next (t, s))
      → ((u : Table) (s' : S) → Holds ke rs u → Rounds (n + 1) rest s' (more (u, s')))
      → Rounds n (select o r others rest) s (visit cb o (record r { loc = [] }) next more (t, s))
  unfolding visit
  visit_lem ke none r rs others rest n next more s w h i f g = absurd (i.known w)
  visit_lem ke (some false) r rs others rest n next more s w h i f g = f
  visit_lem ke (some true) r rs others rest n next more s w h i f g =
      hit_lem ke r rs rest n more s h i g

  -- The locator of a record does not count for the condition.
  wanted-bare : (ke : Eq) (r : Record) → wanted ke (record r { loc = [] }) ≡ wanted ke r
  unfolding wanted op_match
  wanted-bare ke r = refl

  -- The table behind a record that was read.
  read_one :
      (ke : Eq) (r : Record) (rs : List Record) {t : Table}
      → Holds ke (r ∷ rs) t
      → (f : File) × (record_read t ≡ some (ok (record r { loc = [] }), record t { table = f }))
        × Holds ke rs (record t { table = f })
  read_one ke r rs {t} h =
      let (i, l) = h.stored in
      let (f, e, s, a, z, c, u) =
        record_read-record_bytes r (all_bytes rs) t h.table_quiet.0 h.table_quiet.1 h.room h.cursor
          i.time_u64 i.val_u64 i.locidx_u64 h.to_come in
      (
        f,
        e,
        record {
          table_quiet = (s, none_left f.answers a);
          locs_quiet = h.locs_quiet;
          room = omega (arith, h.room);
          cursor = c;
          to_come = u;
          stored = l;
        },
      )

  pub rounds_lem :
      (rs : List Record) (fuel : ℕ) (ke : Eq) (max n k : ℕ) {t : Table} (s : S)
      → n + k ≡ max
      → length rs < fuel
      → Holds ke rs t
      → Rounds n (selected ke k rs) s (search_loop cb fuel ke max n (t, s))
  unfolding search_loop
  rounds_lem rs zero ke max n k s e l h = absurd (omega arith)
  rounds_lem rs (suc fuel) ke max n zero {t} s e l h =
      let z : n ≡ n + 0 = omega arith in
      (t, rw (search_loop, le→ltb n max (omega arith)) (ap (λ j. some (ok j, (t, s))) z))
  rounds_lem [] (suc fuel) ke max n (suc k) {t} s e l h =
      let (f, r) = record_read_end h.table_quiet h.room h.to_come in
      let z : n ≡ n + 0 = omega arith in
      (
        record t { table = f },
        last_round fuel ke max n eshutdown t (record t { table = f }) s (omega arith) r refl
            ∙ ap (λ j. some (ok j, (record t { table = f }, s))) z,
      )
  rounds_lem (r ∷ rs) (suc fuel) ke max n (suc k) {t} s e l h =
      let (f, x, h1) = read_one ke r rs h in
      let w = wanted-bare ke r in
      subst (λ m. Rounds n (selected ke (suc k) (r ∷ rs)) s m)
        (sym (
          round_lem fuel ke max n (record r { loc = [] }) t (record t { table = f }) s (wanted ke r)
            (omega arith) x w))
        (visit_lem ke (wanted ke r) r rs (selected ke (suc k) rs) (selected ke k rs) n _ _ s refl h1
          h.stored.0 (rounds_lem rs fuel ke max n (suc k) s e (omega arith) h1)
          (λ u s' h'. rounds_lem rs fuel ke max (n + 1) k s' (omega arith) (omega arith) h'))
