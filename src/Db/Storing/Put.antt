-- ===== src/Db/Storing/Put.antt =====
-- What kcndb_db_record_add writes to the file of records (kcndbd/kcndb_db.c).
use kcn.Common.{
  ℕ, ◌+◌, ◌-◌, ◌^◌, ◌%◌, ◌≤◌, ◌<◌, ◌≡◌, refl, sym, ap, [], ◌++◌, length, some, arith, ok,
}
use kcn.Common.Fallible.{◌>>=◌, ◌>>◌, focus, lift}
use kcn.Buf.View.{IsValid, held, stored}
use kcn.Buf.Cursor.{reset_lem}
use kcn.Buf.Store.{bytes64, put64_lem, stored-IsValid, held-stored}
use kcn.File.{File}
use kcn.File.Writing.{append_lem, appended}
use kcn.Db.Defs.{Record, Table, table_size_increment}
use kcn.Db.Lookup.{IsQuiet}
use kcn.Db.Reading.{record_bytes}
use kcn.Db.Records.{record_put}
use kcn.Db.Storing.Last.{IsReady}

-- The record goes behind the bytes of the file, whose buffer is empty then.
pub record_put_lem :
    (r : Record) (idx : ℕ) (t : Table)
    → IsReady t t.table
    → 48 ≤ t.table.buf.size
    → length t.table.content < 2 ^ 63
    → t.tablesize + 24 < 2 ^ 64
    → (f : File) × (record_put r idx t
        ≡ some (ok tt, record t { table = f; tablesize = t.tablesize + 24 }))
      × IsQuiet f
      × (f.buf.ep ≡ 0)
      × (f.buf.size ≡ t.table.buf.size)
      × (f.content ≡ t.table.content ++ record_bytes (record r { locidx = idx }))
unfolding record_put table_size_increment
record_put_lem r idx t i room short small =
    let b = t.table.buf in
    let (s, a) = i.quiet in
    let v = s.valid in
    let b1 = stored (bytes64 r.time) b in
    let b2 = stored (bytes64 r.val) b1 in
    let b3 = stored (bytes64 idx) b2 in
    let near = i.near in
    let none_held = i.none_held in
    let cursor = i.cursor in
    let v1 : IsValid b1 = stored-IsValid (bytes64 r.time) v (omega arith) in
    let v2 : IsValid b2 = stored-IsValid (bytes64 r.val) v1 (omega arith) in
    let v3 : IsValid b3 = stored-IsValid (bytes64 idx) v2 (omega arith) in
    let h1 = held-stored (bytes64 r.time) v (sym none_held) (omega arith) in
    let h2 = held-stored (bytes64 r.val) v1 (omega arith) (omega arith) in
    let h3 = held-stored (bytes64 idx) v2 (omega arith) (omega arith) in
    let z : b.ep - b.sp ≡ 0 = omega arith in
    let none_there : held b ≡ [] = rw z refl in
    let h : held b3 ≡ record_bytes (record r { locidx = idx }) = rw (h3, h2, h1, none_there) refl in
    let f3 = record (t.table) { buf = b3 } in
    let sz : (t.tablesize + 24) % 2 ^ 64 ≡ t.tablesize + 24 = omega arith in
    (
      appended f3,
      rw
          (
            record_put,
            ◌>>=◌,
            ◌>>◌,
            focus,
            lift,
            put64_lem r.time v (omega arith),
            put64_lem r.val v1 (omega arith),
            put64_lem idx v2 (omega arith),
            append_lem f3 v3 a short,
          )
          (ap (λ m. some (ok tt, record t { table = appended f3; tablesize = m })) sz),
      (record { valid = (reset_lem 0 v3 (omega arith)).1; errnos = tt }, refl),
      refl,
      refl,
      ap (λ l. t.table.content ++ l) h,
    )
