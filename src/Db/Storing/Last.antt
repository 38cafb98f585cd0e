-- ===== src/Db/Storing/Last.antt =====
-- What kcndb_db_record_read_last reads (kcndbd/kcndb_db.c).
use kcn.Common.{
  ℕ, ◌+◌, ◌-◌, ◌*◌, ◌^◌, ◌≤◌, ◌<◌, ◌≡◌, refl, sym, ap, ◌∙◌, List, [], ◌∷◌, ◌++◌, length, drop, some,
  true, false, ltb, inl, inr, ◌⊎◌, arith, ok, IsU64, All, length-append, drop-append_left,
  append_assoc, le→ltb, lt→ltb, take-all, append-nil,
}
use kcn.Common.Fallible.{◌>>=◌, ◌>>◌, gets, focus, lift}
use kcn.Buf.View.{held}
use kcn.Buf.Cursor.{trimmed, length-held}
use kcn.File.{File}
use kcn.File.Fill.{IsSound}
use kcn.File.Whole.{ensure_at_offset}
use kcn.Db.Defs.{Record, Table}
use kcn.Db.Lookup.{IsQuiet, seek_quiet}
use kcn.Db.Reading.{record_bytes, record_fields, past}
use kcn.Db.Records.{record_read, record_read_last, recordsiz}
use kcn.Db.Selection.{all_bytes}

-- The time of the last of some records, or 0.
abbrev pub latest : List Record → ℕ
latest [] = 0
latest (r ∷ []) = r.time
latest (r ∷ s ∷ rs) = latest (s ∷ rs)

-- Records are none, or some and a last one.
pub last_cases :
    (rs : List Record)
    → (rs ≡ [])
      ⊎ ((before : List Record) × (r : Record) × (rs ≡ before ++ (r ∷ [])) × (latest rs ≡ r.time))
last_cases [] = inl refl
last_cases (r ∷ []) = inr ([], r, refl, refl)
last_cases (r ∷ s ∷ rs) = elim (last_cases (s ∷ rs)) [
  | inl e ↦ absurd (let n = ap (λ (l : List Record). length l) e in omega arith)
  | inr (before, l, e, t) ↦ inr (r ∷ before, l, ap (λ x. r ∷ x) e, t)
]

pub all_bytes-append : (rs ss : List Record) → all_bytes (rs ++ ss) ≡ all_bytes rs ++ all_bytes ss
all_bytes-append [] ss = refl
all_bytes-append (r ∷ rs) ss =
    ap (λ l. record_bytes r ++ l) (all_bytes-append rs ss)
    ∙ sym (append_assoc (record_bytes r) (all_bytes rs) (all_bytes ss))

pub length-all_bytes : (rs : List Record) → length (all_bytes rs) ≡ 24 * length rs
length-all_bytes [] = refl
length-all_bytes (r ∷ rs) =
    length-append (record_bytes r) (all_bytes rs) ∙ omega (arith, length-all_bytes rs)

-- A file of records between two additions: nothing is in its buffer.
pub record IsIdle (t : Table) (rs : List Record) : Type 0 where
  pub quiet : IsQuiet t.table
  pub empty : t.table.buf.ep ≡ 0
  pub block : 48 ≤ t.table.buf.size
  pub content : t.table.content ≡ all_bytes rs
  pub counted : t.tablesize ≡ 24 * length rs
  pub in_range : 24 * length rs < 2 ^ 63

-- The file behind a read of its last record, whose buffer is as good as empty.
pub record IsReady (t : Table) (f : File) : Type 0 where
  pub quiet : IsQuiet f
  pub cursor : f.buf.cp ≡ f.buf.sp
  pub none_held : f.buf.ep ≡ f.buf.cp
  pub near : f.buf.cp ≤ 24
  pub same_size : f.buf.size ≡ t.table.buf.size
  pub same_content : f.content ≡ t.table.content

at_last :
    (c : List ℕ) (t : Table)
    → t.table.answers ≡ []
    → t.tablesize ≡ length c + 24
    → length c < 2 ^ 63
    → record_read_last t ≡ record_read (record t { table = record (t.table) { offset = length c } })
unfolding record_read_last
at_last c t a n short =
    let enough : ltb t.tablesize recordsiz ≡ false = le→ltb t.tablesize recordsiz (omega arith) in
    let o : t.tablesize - recordsiz ≡ length c = omega arith in
    rw
      (record_read_last, ◌>>=◌, ◌>>◌, gets, focus, enough, o, seek_quiet (length c) t.table a short)
      refl

last_read :
    (c : List ℕ) (r : Record) (t : Table)
    → IsQuiet t.table
    → t.table.buf.ep ≡ 0
    → 48 ≤ t.table.buf.size
    → t.table.content ≡ c ++ record_bytes r
    → t.tablesize ≡ length c + 24
    → length c < 2 ^ 63
    → IsU64 r.time
    → IsU64 r.val
    → IsU64 r.locidx
    → (f : File) × (record_read_last t ≡ some (ok (record r { loc = [] }), record t { table = f }))
      × IsReady t f
unfolding record_read
last_read c r t (s, a) z room e n short ht hv hi =
    let v = s.valid in
    let f0 : File = record (t.table) { offset = length c } in
    let s0 : IsSound f0 = record { valid = v; errnos = s.errnos } in
    let d : drop (length c) t.table.content ≡ record_bytes r =
      rw e (drop-append_left c (record_bytes r)) in
    let (g, q, sg, hg, cg, zg, k, ag, at) =
      ensure_at_offset 24 (record_bytes r) s0 a (omega arith) (omega arith) (omega arith)
        (omega arith) z d in
    let w = sg.valid in
    let h : held g.buf ≡ record_bytes r =
      hg ∙ take-all t.table.buf.size (record_bytes r) (omega arith) in
    let l : g.buf.ep ≡ 24 = omega (arith, length-held w, ap (λ (l : List ℕ). length l) h) in
    let (p1, p2, p3, p4, p5, y, i) = record_fields r [] w cg ht hv hi h in
    (
      record g { buf = trimmed 24 (past 3 g.buf) },
      at_last c t a n short
          ∙ rw (record_read, ◌>>=◌, ◌>>◌, gets, focus, lift, q, p1, p2, p3, p4, p5) refl,
      record {
        quiet = (record { valid = y; errnos = sg.errnos }, ag);
        cursor = omega arith;
        none_held = omega arith;
        near = omega arith;
        same_size = zg;
        same_content = k;
      },
    )

-- The numbers of a record fit their bytes.
abbrev pub Fits : Record → Type 0
Fits r = IsU64 r.time × (IsU64 r.val × IsU64 r.locidx)

All-last :
    (P : Record → Type 0) (before : List Record) (r : Record) → All P (before ++ (r ∷ [])) → P r
All-last P [] r (h, k) = h
All-last P (x ∷ before) r (h, k) = All-last P before r k

-- Between two additions the last record is read, or a record at time 0 where there is none.
pub last_lem :
    (rs : List Record) (t : Table)
    → IsIdle t rs
    → All Fits rs
    → (f : File) × (r : Record) × (record_read_last t ≡ some (ok r, record t { table = f }))
      × (r.time ≡ latest rs)
      × IsReady t f
unfolding record_read_last
last_lem rs t i h = elim (last_cases rs) [
  | inl e ↦
      let v = i.quiet.0.valid in
      let n = ap (λ (l : List Record). length l) e in
      let none_there : ltb t.tablesize recordsiz ≡ true =
        lt→ltb t.tablesize recordsiz (omega (arith, i.counted)) in
      (
        t.table,
        record { time = 0; val = 0; locidx = 0; loc = [] },
        rw (record_read_last, ◌>>=◌, gets, none_there) refl,
        sym (ap latest e),
        record {
          quiet = i.quiet;
          cursor = omega (arith, i.empty);
          none_held = omega (arith, i.empty);
          near = omega (arith, i.empty);
          same_size = refl;
          same_content = refl;
        },
      )
  | inr (before, r, e, z) ↦
      let (ht, (hv, hi)) = All-last Fits before r (rw e at h) in
      let n : length rs ≡ length before + 1 =
        ap (λ (l : List Record). length l) e ∙ length-append before (r ∷ []) in
      let c = i.content ∙ ap all_bytes e ∙ all_bytes-append before (r ∷ []) in
      let m = length-all_bytes before in
      let (f, q, y) =
        last_read (all_bytes before) r t i.quiet i.empty i.block
          (c ∙ ap (λ l. all_bytes before ++ l) (append-nil (record_bytes r)))
          (omega (arith, i.counted)) (omega (arith, i.in_range)) ht hv hi in
      (f, record r { loc = [] }, q, sym z, y)
]
