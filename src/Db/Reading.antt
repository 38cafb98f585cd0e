-- ===== src/Db/Reading.antt =====
-- What kcndb_db_record_read reads (kcndbd/kcndb_db.c).
use kcn.Common.{
  zero, suc, ℕ, ◌≤◌, ◌≡◌, refl, sym, ap, ◌∙◌, List, [], ◌++◌, length, take, drop, some, IsU64, ok,
  inl, inr, arith, length-append, take-append_left, take-append_le, drop-append_left,
  drop-append_le, take-append-drop,
}
use kcn.Common.Fallible.{◌>>=◌, ◌>>◌}
use kcn.Buf.{Buf, get64, headingdata, trim_head}
use kcn.Buf.View.{IsValid, held, ahead, skip, headingdata_lem}
use kcn.Buf.Load.{length-ahead, ahead-skip, get64_lem}
use kcn.Buf.Store.{bytes64}
use kcn.Buf.Cursor.{trimmed, trim_head-trimmed, held-trimmed}
use kcn.File.{File}
use kcn.File.Fill.{unread, IsSound}
use kcn.File.Reading.{Shortage, ensure_lem}
use kcn.Db.Defs.{Record, Table}
use kcn.Db.Records.{record_read}

-- The bytes of a record in its file.
abbrev pub record_bytes : Record → List ℕ
record_bytes r = bytes64 r.time ++ (bytes64 r.val ++ bytes64 r.locidx)

-- A beginning that lies in the first of two lists.
split-append :
    (xs ys zs rest : List ℕ)
    → xs ++ ys ≡ zs ++ rest
    → length zs ≤ length xs
    → (xs ≡ zs ++ drop (length zs) xs) × (drop (length zs) xs ++ ys ≡ rest)
split-append xs ys zs rest e h =
    let a : take (length zs) xs ≡ zs =
      sym (take-append_le (length zs) xs ys h)
      ∙ ap (λ l. take (length zs) l) e
      ∙ take-append_left zs rest in
    (
      sym (take-append-drop (length zs) xs) ∙ ap (λ l. l ++ drop (length zs) xs) a,
      sym (drop-append_le (length zs) xs ys h)
          ∙ ap (λ l. drop (length zs) l) e
          ∙ drop-append_left zs rest,
    )

-- The file has the bytes, so that it cannot run short of them.
no_shortage : (n e : ℕ) (f : File) → n ≤ length (unread f) → f.answers ≡ [] → Shortage n e f → ⊥
no_shortage n e f h a (inl (_, s)) = omega arith
no_shortage n e f h a (inr s) = let z : length f.answers ≡ 0 = ap (λ l. length l) a in omega arith

-- The buffer behind some numbers.
abbrev pub past : ℕ → Buf → Buf
past zero b = b
past (suc n) b = past n (skip 8 b)

-- Three numbers read from a buffer that holds a record, which is dropped.
pub record_fields :
    (r : Record) (rest : List ℕ) {b : Buf}
    → IsValid b
    → b.cp ≡ b.sp
    → IsU64 r.time
    → IsU64 r.val
    → IsU64 r.locidx
    → held b ≡ record_bytes r ++ rest
    → (get64 b ≡ some (r.time, past 1 b))
      × (get64 (past 1 b) ≡ some (r.val, past 2 b))
      × (get64 (past 2 b) ≡ some (r.locidx, past 3 b))
      × (headingdata (past 3 b) ≡ some (24, past 3 b))
      × (trim_head 24 (past 3 b) ≡ some (tt, trimmed 24 (past 3 b)))
      × IsValid (trimmed 24 (past 3 b))
      × (held (trimmed 24 (past 3 b)) ≡ rest)
record_fields r rest {b} v s ht hv hi e =
    let a0 : ahead b ≡ bytes64 r.time ++ (bytes64 r.val ++ (bytes64 r.locidx ++ rest)) = rw s e in
    let (v1, a1) = ahead-skip (bytes64 r.time) (bytes64 r.val ++ (bytes64 r.locidx ++ rest)) v a0 in
    let (v2, a2) = ahead-skip (bytes64 r.val) (bytes64 r.locidx ++ rest) v1 a1 in
    let (v3, a3) = ahead-skip (bytes64 r.locidx) rest v2 a2 in
    let (t, w) =
      trim_head-trimmed 24 v3 (omega (arith, length-ahead v, ap (λ (l : List ℕ). length l) a0)) in
    (
      get64_lem r.time (bytes64 r.val ++ (bytes64 r.locidx ++ rest)) v ht a0,
      get64_lem r.val (bytes64 r.locidx ++ rest) v1 hv a1,
      get64_lem r.locidx rest v2 hi a2,
      headingdata_lem v3 ∙ ap (λ n. some (n, past 3 b)) (omega arith),
      t,
      w,
      held-trimmed 24 v3 ∙ ap (λ l. drop 24 l) e,
    )

-- On a table whose file of records is sound, has no answer of the system ready, has room for a record in
-- its block and the cursor at the start of its data, and whose bytes to come begin with those of
-- a record, kcndb_db_record_read succeeds and gives the record without its locator; the bytes to come
-- are the ones behind it, in a file that is sound again, with its cursor at the start and its room.
pub record_read-record_bytes :
    (r : Record) (rest : List ℕ) (t : Table)
    → IsSound t.table
    → t.table.answers ≡ []
    → 24 ≤ t.table.buf.size
    → t.table.buf.cp ≡ t.table.buf.sp
    → IsU64 r.time
    → IsU64 r.val
    → IsU64 r.locidx
    → unread t.table ≡ record_bytes r ++ rest
    → (f : File) × (record_read t ≡ some (ok (record r { loc = [] }), record t { table = f }))
      × IsSound f
      × (length f.answers ≡ 0)
      × (f.buf.size ≡ t.table.buf.size)
      × (f.buf.cp ≡ f.buf.sp)
      × (unread f ≡ rest)
unfolding record_read
record_read-record_bytes r rest t s a z c ht hv hi e =
    let (g, o, q, (sg, u, k, d, y, l, w)) = ensure_lem 24 s z in
    let many : 24 ≤ length (unread t.table) =
      omega (arith, ap (λ (l : List ℕ). length l) e, length-append (record_bytes r) rest) in
    elim w [
      | inr (x, b, short) ↦ absurd (no_shortage 24 x t.table many a short)
      | inl (b, enough) ↦
          let (h, back) =
            split-append (held g.buf) (drop g.offset g.content) (record_bytes r) rest (u ∙ e)
              enough in
          let (p1, p2, p3, p4, p5, v, i) =
            record_fields r (drop 24 (held g.buf)) sg.valid (omega arith) ht hv hi h in
          (
            record g { buf = trimmed 24 (past 3 g.buf) },
            rw (◌>>◌, q, b, ◌>>=◌, p1, p2, p3, p4, p5) refl,
            record { valid = v; errnos = sg.errnos },
            (let n : length t.table.answers ≡ 0 = ap (λ l. length l) a in omega arith),
            y,
            omega arith,
            ap (λ l. l ++ drop g.offset g.content) i ∙ back,
          )
    ]
