-- ===== src/Db/Storing/Opening.antt =====
-- kcndb_db_table_open on two new files (kcndbd/kcndb_db.c).
use kcn.Common.{
  ℕ, zero, suc, ◌+◌, ◌-◌, ◌*◌, ◌^◌, ◌%◌, ◌≤◌, ◌<◌, ◌≡◌, refl, sym, ap, ◌∙◌, List, [], length,
  replicate, drop, some, none, true, false, arith, ok, length-replicate, ltb, ◌==◌,
}
use kcn.Common.Fallible.{E, ◌>>=◌, ◌>>◌, attempt, focus, lift}
use kcn.Eq.{Eq}
use kcn.Buf.{Buf, putnull}
use kcn.Buf.View.{IsValid, held, stored}
use kcn.Buf.Cursor.{reset_lem}
use kcn.Buf.Store.{putnull_lem, stored-IsValid, held-stored}
use kcn.File.{File, append, next, size_get}
use kcn.File.Writing.{append_lem, appended}
use kcn.Db.Defs.{
  Table, on_locs, on_locs_buf, table_open, init, loc_init, locsize_read, tablesize_read,
  loc_size_increment, indexsiz, indextablesiz,
}
use kcn.Db.Lookup.{IsQuiet}
use kcn.Db.Locks.{wrlock_lem}
use kcn.Db.Chains.Slots.{PointsTo}
use kcn.Db.Storing.State.{IsStore}

-- A table before it is opened for the first time: nothing is in its files or its buffers.
pub record IsUnopened (t : Table) : Type 0 where
  pub locs_quiet : IsQuiet t.locs
  pub table_quiet : IsQuiet t.table
  pub locs_empty : t.locs.content ≡ []
  pub table_empty : t.table.content ≡ []
  pub locs_block : indextablesiz ≤ t.locs.buf.size
  pub table_block : 48 ≤ t.table.buf.size
  pub locs_start : t.locs.buf.ep ≡ 0
  pub table_start : t.table.buf.ep ≡ 0
  pub locsize : t.locsize ≡ 0
  pub tablesize : t.tablesize ≡ 0

size_get_lem : (f : File) → f.answers ≡ [] → size_get f ≡ some (ok (length f.content), f)
unfolding size_get next
size_get_lem f a = let e : next f.answers ≡ none = ap next a in rw (size_get, e) refl

drop-replicate : (i n : ℕ) → drop i (replicate {A = ℕ} n 0) ≡ replicate (n - i) 0
drop-replicate zero n = let e : n ≡ n - 0 = omega arith in ap (λ k. replicate k 0) e
drop-replicate (suc i) zero = let e : 0 ≡ 0 - suc i = omega arith in ap (λ k. replicate k 0) e
drop-replicate (suc i) (suc n) =
    let e : n - i ≡ suc n - suc i = omega arith in drop-replicate i n ∙ ap (λ k. replicate k 0) e

-- Every entry of the new table is empty.
zeros-PointsTo : (n h : ℕ) → indexsiz * h + 8 ≤ n → PointsTo (replicate n 0) h 0
zeros-PointsTo n h k =
    let m = n - indexsiz * h - 8 in
    let e : n - indexsiz * h ≡ suc (suc (suc (suc (suc (suc (suc (suc m))))))) = omega arith in
    record {
      rest = replicate m 0;
      at_entry = drop-replicate (indexsiz * h) n ∙ ap (λ j. replicate j 0) e;
    }

empty_held : (b : Buf) → IsValid b → b.ep ≡ 0 → held b ≡ []
empty_held b v z = let e : b.ep - b.sp ≡ 0 = omega arith in rw e refl

-- Zeros are written to an empty file.
zeros_lem :
    (m : ℕ) (t : Table)
    → IsQuiet t.locs
    → t.locs.content ≡ []
    → m ≤ t.locs.buf.size
    → t.locs.buf.ep ≡ 0
    → (f : File) × ((do on_locs_buf (putnull m); on_locs append; loc_size_increment m) t
        ≡ some (ok tt, record t { locs = f; locsize = (t.locsize + m) % 2 ^ 64 }))
      × IsQuiet f
      × (f.content ≡ replicate m 0)
      × (f.buf.size ≡ t.locs.buf.size)
unfolding loc_size_increment
zeros_lem m t (s, a) c room z =
    let v = s.valid in
    let xs : List ℕ = replicate m 0 in
    let l : length xs ≡ m = length-replicate {A = ℕ} m 0 in
    let b = stored xs t.locs.buf in
    let v1 : IsValid b = stored-IsValid xs v (omega arith) in
    let h = held-stored xs v (omega arith) (omega arith) in
    let f1 = record (t.locs) { buf = b } in
    let p = putnull_lem m v (omega arith) in
    let short : length f1.content < 2 ^ 63 = omega (arith, ap (λ (l : List ℕ). length l) c) in
    (
      appended f1,
      rw (◌>>◌, focus, lift, p, append_lem f1 v1 a short) refl,
      (record { valid = (reset_lem 0 v1 (omega arith)).1; errnos = tt }, refl),
      rw (c, h, empty_held t.locs.buf v z) refl,
      refl,
    )

locsize_read_lem :
    (t : Table)
    → t.locs.answers ≡ []
    → t.locs.content ≡ []
    → t.locsize ≡ 0
    → locsize_read t ≡ some (ok tt, record t { locsize = 0 })
unfolding locsize_read
locsize_read_lem t a c z =
    let n : length t.locs.content ≡ 0 = ap (λ (l : List ℕ). length l) c in
    let e : (t.locsize == 0) ≡ true = rw z refl in
    rw (locsize_read, e, ◌>>=◌, focus, size_get_lem t.locs a)
      (ap (λ k. some (ok tt, record t { locsize = k })) n)

tablesize_read_lem :
    (t : Table)
    → t.table.answers ≡ []
    → t.table.content ≡ []
    → t.tablesize ≡ 0
    → tablesize_read t ≡ some (ok tt, record t { tablesize = 0 })
unfolding tablesize_read
tablesize_read_lem t a c z =
    let n : length t.table.content ≡ 0 = ap (λ (l : List ℕ). length l) c in
    let e : (t.tablesize == 0) ≡ true = rw z refl in
    rw (tablesize_read, e, ◌>>=◌, focus, size_get_lem t.table a)
      (ap (λ k. some (ok tt, record t { tablesize = k })) n)

three :
    (m k l : E Table (Unit {0})) (t t1 t2 t3 : Table)
    → m t ≡ some (ok tt, t1)
    → k t1 ≡ some (ok tt, t2)
    → l t2 ≡ some (ok tt, t3)
    → (m >> (k >> l)) t ≡ some (ok tt, t3)
three m k l t t1 t2 t3 x y z = rw (◌>>◌, x, y) z

loc_init-zeros :
    (t : Table)
    → t.locsize ≡ 0
    → loc_init t
      ≡ (do on_locs_buf (putnull indextablesiz); on_locs append; loc_size_increment indextablesiz) t
unfolding loc_init
loc_init-zeros t z = let e : ltb 0 t.locsize ≡ false = rw z refl in rw (loc_init, e) refl

-- kcndb_db_init on two empty files.
init_lem :
    (t : Table)
    → IsUnopened t
    → (f : File) × (init t
        ≡ some (ok tt, record t { locs = f; locsize = indextablesiz; tablesize = 0 }))
      × IsQuiet f
      × (f.content ≡ replicate indextablesiz 0)
      × (f.buf.size ≡ t.locs.buf.size)
unfolding init
init_lem t i =
    let t1 : Table = record t { locsize = 0 } in
    let t2 : Table = record t1 { tablesize = 0 } in
    let (f, e, q, c, z) =
      zeros_lem indextablesiz t2 i.locs_quiet i.locs_empty i.locs_block i.locs_start in
    (
      f,
      three locsize_read tablesize_read loc_init t t1 t2
          (record t2 { locs = f; locsize = indextablesiz })
          (locsize_read_lem t i.locs_quiet.1 i.locs_empty i.locsize)
          (tablesize_read_lem t1 i.table_quiet.1 i.table_empty i.tablesize)
          (loc_init-zeros t2 refl ∙ e),
      q,
      c,
      z,
    )

-- kcndb_db_table_open on two new files, empty, whose calls of the system do all they can, with empty
-- buffers in which there is room for the table of offsets, and a table that nobody uses. It succeeds and
-- leaves a table without records that nobody uses, and in which no hash value has a chain: the one that
-- an addition expects.
pub table_open-IsStore :
    (ke : Eq) (h : ℕ) (t : Table)
    → IsUnopened t
    → t.writer ≡ false
    → t.readers ≡ 0
    → h < 256
    → (u : Table) × (table_open t ≡ some (ok tt, u))
      × IsStore ke [] u
      × PointsTo u.locs.content h 0
      × (length u.locs.content ≡ indextablesiz)
unfolding table_open
table_open-IsStore ke h t i w r k =
    let t0 : Table = record t { writer = true } in
    let i0 : IsUnopened t0 = record {
      locs_quiet = i.locs_quiet;
      table_quiet = i.table_quiet;
      locs_empty = i.locs_empty;
      table_empty = i.table_empty;
      locs_block = i.locs_block;
      table_block = i.table_block;
      locs_start = i.locs_start;
      table_start = i.table_start;
      locsize = i.locsize;
      tablesize = i.tablesize;
    } in
    let (f, e, q, c, z) = init_lem t0 i0 in
    let u : Table = record t { locs = f; locsize = indextablesiz; tablesize = 0; writer = false } in
    let n : length f.content ≡ indextablesiz =
      ap (λ (l : List ℕ). length l) c ∙ length-replicate {A = ℕ} indextablesiz 0 in
    (
      u,
      rw (table_open, ◌>>◌, ◌>>=◌, wrlock_lem t w r, attempt, e) refl,
      record {
        idle = record {
          quiet = i.table_quiet;
          empty = i.table_start;
          block = i.table_block;
          content = i.table_empty;
          counted = refl;
          in_range = omega arith;
        };
        locs = record {
          quiet = q;
          block = omega (arith, z, i.locs_block);
          table = omega (arith, n);
          counted = sym n;
        };
        stored = tt;
        behind = tt;
        unlocked = refl;
        alone = r;
      },
      rw c (zeros-PointsTo indextablesiz h (omega arith)),
      n,
    )
