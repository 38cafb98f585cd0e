-- ===== src/Db/Chains/Slots.antt =====
-- The table of offsets at the head of the file of locators (kcndb_db_loc_add in kcndbd/kcndb_db.c).
use kcn.Common.{
  ℕ, suc, ◌+◌, ◌-◌, ◌*◌, ◌≤◌, ◌<◌, ◌≡◌, refl, sym, ap, ◌∙◌, List, ◌++◌, length, take, drop, arith,
  drop-take, length-take,
}
use kcn.Common.Fallible.{E, ◌>>◌, focus, lift}
use kcn.Buf.{reset, forward}
use kcn.Buf.View.{IsValid, ahead, skip}
use kcn.Buf.Cursor.{reset_lem, length-held, ahead-held, forward_lem}
use kcn.Buf.Store.{bytes64}
use kcn.File.{File, seek_head, ensure}
use kcn.File.Fill.{IsSound}
use kcn.File.Whole.{ensure_at_offset}
use kcn.Db.Defs.{Table, on_locs, on_locs_buf, indexsiz, indextablesiz}
use kcn.Db.Lookup.{IsQuiet, seek_quiet}

-- The entry of a hash value is an offset.
pub record PointsTo (content : List ℕ) (h p : ℕ) : Type 0 where
  pub rest : List ℕ
  pub at_entry : drop (indexsiz * h) content ≡ bytes64 p ++ rest

-- kcndb_db_loc_add to its loop: the table is read and the cursor stands at an entry.
abbrev pub at_slot : {A : Type 0} → ℕ → E Table A → E Table A
at_slot h k = do
  on_locs_buf (reset 0)
  on_locs (seek_head 0)
  on_locs (ensure indexsiz)
  on_locs_buf (forward (indexsiz * h))
  k

take-bytes64 :
    (n p : ℕ) (r : List ℕ) → 8 ≤ n → take n (bytes64 p ++ r) ≡ bytes64 p ++ take (n - 8) r
take-bytes64 n p r h =
    let e : n ≡ suc (suc (suc (suc (suc (suc (suc (suc (n - 8)))))))) = omega arith in
    ap (λ k. take k (bytes64 p ++ r)) e

pub at_slot_lem :
    {A : Type 0} (h p : ℕ) (k : E Table A) (t : Table)
    → IsQuiet t.locs
    → indextablesiz ≤ t.locs.buf.size
    → indextablesiz ≤ length t.locs.content
    → h < 256
    → PointsTo t.locs.content h p
    → (f : File) × (at_slot h k t ≡ k (record t { locs = f }))
      × IsQuiet f
      × (f.content ≡ t.locs.content)
      × (f.buf.size ≡ t.locs.buf.size)
      × (f.buf.cp - f.buf.sp ≡ indexsiz * h)
      × ((r : List ℕ) × (ahead f.buf ≡ bytes64 p ++ r))
at_slot_lem h p k t (s, a) room long small z =
    let (r1, v1) = reset_lem 0 s.valid (omega arith) in
    let f1 : File = record (t.locs) { buf = record (t.locs.buf) { cp = 0; sp = 0; ep = 0 } } in
    let s1 : IsSound (record f1 { offset = 0 }) = record { valid = v1; errnos = s.errnos } in
    let (g, e, sg, hg, c, zg, m, ag, at) =
      ensure_at_offset indexsiz t.locs.content s1 a (omega arith) (omega arith) (omega arith) refl
        refl refl in
    let n : g.buf.ep - g.buf.sp ≡ length (take t.locs.buf.size t.locs.content) =
      sym (length-held sg.valid) ∙ ap (λ (l : List ℕ). length l) hg in
    let n' = length-take t.locs.buf.size t.locs.content in
    let v = sg.valid in
    let fits : g.buf.cp + indexsiz * h ≤ g.buf.ep = omega arith in
    let b = skip (indexsiz * h) g.buf in
    let vb : IsValid b = omega arith in
    let o : b.cp - b.sp ≡ indexsiz * h = omega arith in
    (
      record g { buf = b },
      rw
          (
            ◌>>◌,
            focus,
            lift,
            r1,
            seek_quiet 0 f1 a (omega arith),
            e,
            forward_lem (indexsiz * h) v fits,
          )
          refl,
      (record { valid = vb; errnos = sg.errnos }, ag),
      m,
      zg,
      o,
      (
        take (t.locs.buf.size - indexsiz * h - 8) z.rest,
        ahead-held vb
            ∙ rw (o, hg, drop-take, z.at_entry)
                (take-bytes64 (t.locs.buf.size - indexsiz * h) p z.rest (omega arith)),
      ),
    )
