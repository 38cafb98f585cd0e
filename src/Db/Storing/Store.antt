-- ===== src/Db/Storing/Store.antt =====
-- kcndb_db_record_add as an addition to the records of a table (kcndbd/kcndb_db.c).
use kcn.Common.{
  ℕ, suc, ◌+◌, ◌*◌, ◌≡◌, refl, sym, ap, ◌∙◌, List, [], ◌∷◌, ◌++◌, length, some, true, false, arith,
  ok, All, length-append, append-nil,
}
use kcn.Common.Fallible.{◌>>=◌, ◌>>◌, attempt}
use kcn.Eq.{Eq, time_lt}
use kcn.File.{File}
use kcn.Db.Defs.{Record, Table, indexsiz}
use kcn.Db.Lookup.{IsQuiet}
use kcn.Db.Locks.{wrlock_lem}
use kcn.Db.Records.{wanted, record_add_locked, record_add}
use kcn.Db.Reading.{record_bytes}
use kcn.Db.Selection.{all_bytes, IsStored}
use kcn.Db.Chains.Append.{linked}
use kcn.Db.Chains.Add.{IsLocFile, hash}
use kcn.Db.Chains.Naming.{after_add, new_locator, added-IsLocFile, hash_place}
use kcn.Db.Storing.Last.{IsIdle, IsReady, Fits, last_lem, all_bytes-append, length-all_bytes}
use kcn.Db.Storing.Put.{record_put_lem}
use kcn.Db.Storing.State.{IsStore, IsNew, placed, AllStored-Fits, AllStored-added, Behind-added}

locked_lem :
    (ke : Eq) (rs : List Record) (r : Record) (fuel : ℕ) (t : Table)
    → IsIdle t rs
    → IsLocFile t
    → All Fits rs
    → IsNew ke rs r t
    → (f g : File) × (record_add_locked (suc fuel) r t
        ≡ some (
          ok (length t.locs.content),
          record t {
            locs = f;
            table = g;
            locsize = length t.locs.content + length r.loc + 10;
            tablesize = t.tablesize + 24;
          },
        ))
      × IsQuiet f
      × (f.content ≡ linked r.loc (indexsiz * hash r.loc) t.locs.content)
      × (f.buf.size ≡ t.locs.buf.size)
      × IsQuiet g
      × (g.buf.ep ≡ 0)
      × (g.buf.size ≡ t.table.buf.size)
      × (g.content ≡ t.table.content ++ record_bytes (placed r t))
unfolding record_add_locked
locked_lem ke rs r fuel t i j fits n =
    let (f, z, e, tz, y) = last_lem rs t i fits in
    let t2 : Table = record t { table = f } in
    let j2 : IsLocFile t2 = record {
      quiet = j.quiet;
      block = j.block;
      table = j.table;
      counted = j.counted;
    } in
    let (g, e', q, c, sz) = after_add r.loc t2 j2 n.free n.plain n.in_half n.room n.short fuel in
    let t3 : Table = record t2 { locs = g; locsize = length t.locs.content + length r.loc + 10 } in
    let y3 : IsReady t3 t3.table = record {
      quiet = y.quiet;
      cursor = y.cursor;
      none_held = y.none_held;
      near = y.near;
      same_size = refl;
      same_content = refl;
    } in
    let long : length f.content ≡ 24 * length rs =
      ap (λ (l : List ℕ). length l) (y.same_content ∙ i.content) ∙ length-all_bytes rs in
    let (k, e'', q', ep, sk, ck) =
      record_put_lem r (length t.locs.content) t3 y3 (omega (arith, y.same_size, i.block))
        (omega (arith, i.in_range)) (omega (arith, i.counted, i.in_range)) in
    let order : time_lt r.time z.time ≡ false = ap (λ x. time_lt r.time x) tz ∙ n.in_order in
    (
      g,
      k,
      rw (record_add_locked, ◌>>=◌, e, order, e', ◌>>◌, e'') refl,
      q,
      c,
      sz,
      q',
      ep,
      sk ∙ y.same_size,
      ck ∙ ap (λ l. l ++ record_bytes (placed r t)) y.same_content,
    )

-- What a table holds behind an addition.
stored_after :
    (ke : Eq) (rs : List Record) (r : Record) (t : Table) (f g : File)
    → IsStore ke rs t
    → IsNew ke rs r t
    → IsQuiet f
    → f.content ≡ linked r.loc (indexsiz * hash r.loc) t.locs.content
    → f.buf.size ≡ t.locs.buf.size
    → IsQuiet g
    → g.buf.ep ≡ 0
    → g.buf.size ≡ t.table.buf.size
    → g.content ≡ t.table.content ++ record_bytes (placed r t)
    → IsStore ke (rs ++ (placed r t ∷ [])) (record t {
      locs = f;
      table = g;
      locsize = length t.locs.content + length r.loc + 10;
      tablesize = t.tablesize + 24;
      writer = false;
    })
unfolding wanted
stored_after ke rs r t f g s n qf cf sf qg eg sg cg =
    let i = s.idle in
    let j = s.locs in
    let place = hash_place r.loc t.locs.content j.table in
    let j' = added-IsLocFile r.loc t j n.free n.plain n.in_half n.room n.short f qf cf sf in
    let m : length (rs ++ (placed r t ∷ [])) ≡ length rs + 1 = length-append rs (placed r t ∷ []) in
    let new : IsStored ke (linked r.loc (indexsiz * hash r.loc) t.locs.content) t.locs.buf.size
        (length t.locs.content + length r.loc + 10) (placed r t) =
      record {
        time_u64 = n.time_u64;
        val_u64 = n.val_u64;
        locidx_u64 = omega (arith, n.short);
        locator = new_locator r.loc t j n.free n.plain n.in_half n.room n.short;
        in_file = omega arith;
        known = n.known;
      } in
    record {
      idle = record {
        quiet = qg;
        empty = eg;
        block = omega (arith, i.block);
        content =
            cg
            ∙ ap (λ l. l ++ record_bytes (placed r t)) i.content
            ∙ ap (λ l. all_bytes rs ++ l) (sym (append-nil (record_bytes (placed r t))))
            ∙ sym (all_bytes-append rs (placed r t ∷ []));
        counted = omega (arith, i.counted);
        in_range = omega (arith, n.short_table);
      };
      locs = record { quiet = j'.quiet; block = j'.block; table = j'.table; counted = j'.counted };
      stored =
          rw (cf, sf)
            (AllStored-added ke r.loc t.locs.content (indexsiz * hash r.loc) t.locs.buf.size
              t.locsize (length t.locs.content + length r.loc + 10) rs (placed r t) place
              (omega (arith, j.counted)) s.stored s.behind new);
      behind = Behind-added rs (placed r t) s.behind j.table;
      unlocked = refl;
      alone = s.alone;
    }

-- kcndb_db_record_add on a table that nobody uses, whose calls of the system do all they can, with the
-- records `rs`, their locators behind the table of offsets, and with empty buffers, for a record that
-- is not older than the last one, whose numbers fit, whose locator is a string of less than 2 ^ 16
-- bytes with room for it and a hash value without a chain, and where the condition has a known operator.
-- It returns with the offset of the locator and leaves a table of the same kind that nobody uses,
-- whose records are `rs` and the new one with that offset: the files hold their bytes and sizes, and
-- every record still has its locator.
pub record_add-IsStore :
    (ke : Eq) (rs : List Record) (r : Record) (fuel : ℕ) (t : Table)
    → IsStore ke rs t
    → IsNew ke rs r t
    → (u : Table) × (record_add (suc fuel) r t ≡ some (ok (length t.locs.content), u))
      × IsStore ke (rs ++ (placed r t ∷ [])) u
unfolding record_add
record_add-IsStore ke rs r fuel t s n =
    let i = s.idle in
    let j = s.locs in
    let t1 : Table = record t { writer = true } in
    let i1 : IsIdle t1 rs = record {
      quiet = i.quiet;
      empty = i.empty;
      block = i.block;
      content = i.content;
      counted = i.counted;
      in_range = i.in_range;
    } in
    let j1 : IsLocFile t1 = record {
      quiet = j.quiet;
      block = j.block;
      table = j.table;
      counted = j.counted;
    } in
    let n1 : IsNew ke rs r t1 = record {
      free = n.free;
      plain = n.plain;
      in_half = n.in_half;
      room = n.room;
      short = n.short;
      short_table = n.short_table;
      time_u64 = n.time_u64;
      val_u64 = n.val_u64;
      known = n.known;
      in_order = n.in_order;
    } in
    let fits = AllStored-Fits ke t.locs.content t.locs.buf.size t.locsize rs s.stored in
    let (f, g, e, qf, cf, sf, qg, eg, sg, cg) = locked_lem ke rs r fuel t1 i1 j1 fits n1 in
    let u : Table = record t1 {
      locs = f;
      table = g;
      locsize = length t.locs.content + length r.loc + 10;
      tablesize = t.tablesize + 24;
    } in
    (
      record u { writer = false },
      rw (record_add, ◌>>◌, ◌>>=◌, wrlock_lem t s.unlocked s.alone, attempt, e) refl,
      stored_after ke rs r t f g s n qf cf sf qg eg sg cg,
    )
