-- ===== src/Db/Chains/Append.antt =====
-- What kcndb_db_loc_add adds to the file of locators, and where it writes the pointer to it
-- (kcndbd/kcndb_db.c).
use kcn.Common.{
  ℕ, ◌+◌, ◌-◌, ◌^◌, ◌%◌, ◌≤◌, ◌<◌, ◌≡◌, refl, ap, ◌∙◌, List, ◌++◌, length, some, false, ◌==◌, arith,
  ok, take-length, append_assoc, add_size, sub_size,
}
use kcn.Common.Fallible.{◌>>=◌, ◌>>◌, gets, focus, lift}
use kcn.Buf.{Buf, put16, put, put64, len}
use kcn.Buf.View.{IsValid, held, stored, len_lem, headingdata_lem}
use kcn.Buf.Cursor.{reset_lem}
use kcn.Buf.Store.{bytes16, bytes64, put16_lem, put_lem, put64_lem, stored-IsValid, held-stored}
use kcn.File.{File, overwrite}
use kcn.File.Writing.{append_lem, appended, emptied, flushed, write_out-flushed}
use kcn.Db.Defs.{Table}
use kcn.Db.Lookup.{IsQuiet, seek_quiet}
use kcn.Db.Locators.{loc_append}

-- A locator in the file that is the last of its chain: its length, its bytes and no offset.
abbrev pub entry : List ℕ → List ℕ
entry l = bytes16 (length l) ++ l ++ bytes64 0

-- The buffer with a locator of the file.
abbrev with_entry : List ℕ → Buf → Buf
with_entry l b = stored (bytes64 0) (stored l (stored (bytes16 (length l)) (emptied b)))

with_entry_lem :
    (l : List ℕ) {b : Buf}
    → IsValid b
    → length l + 10 ≤ b.size
    → (put16 (length l) (emptied b) ≡ some (tt, stored (bytes16 (length l)) (emptied b)))
      × (put l (length l) (stored (bytes16 (length l)) (emptied b))
          ≡ some (tt, stored l (stored (bytes16 (length l)) (emptied b))))
      × (put64 0 (stored l (stored (bytes16 (length l)) (emptied b))) ≡ some (tt, with_entry l b))
      × IsValid (with_entry l b)
      × (held (with_entry l b) ≡ entry l)
with_entry_lem l {b} v room =
    let v1 = (reset_lem 0 v (omega arith)).1 in
    let v2 = stored-IsValid (bytes16 (length l)) v1 (omega arith) in
    let v3 = stored-IsValid l v2 (omega arith) in
    let h2 = held-stored (bytes16 (length l)) v1 refl (omega arith) in
    let h3 = held-stored l v2 refl (omega arith) in
    let h4 = held-stored (bytes64 0) v3 (omega arith) (omega arith) in
    (
      put16_lem (length l) v1 (omega arith),
      rw take-length at (put_lem l (length l) v2 (omega arith) (omega arith)),
      put64_lem 0 v3 (omega arith),
      stored-IsValid (bytes64 0) v3 (omega arith),
      h4 ∙ rw (h3, h2) (append_assoc (bytes16 (length l)) l (bytes64 0)),
    )

-- The file when a locator is behind its bytes and its offset `i` at `o`.
abbrev pub linked : List ℕ → ℕ → List ℕ → List ℕ
linked l o content = overwrite o (bytes64 (length content)) (content ++ entry l)

-- Where every call does all that it is asked and the block has room, kcndb_db_loc_add writes a new
-- locator behind the bytes of the file, makes its size that of the file and gives the old size as
-- the offset. The offset goes where the cursor of the buffer stands, less eight, from the head of the
-- file: wherever the bytes before the cursor came from.
pub loc_append_lem :
    (l : List ℕ) (t : Table)
    → IsQuiet t.locs
    → length l + 10 ≤ t.locs.buf.size
    → length t.locs.content + length l + 10 < 2 ^ 63
    → t.locsize ≡ length t.locs.content
    → 8 ≤ t.locs.buf.cp - t.locs.buf.sp
    → (f : File) × (loc_append l t
        ≡ some (
          ok (length t.locs.content),
          record t { locs = f; locsize = length t.locs.content + length l + 10 },
        ))
      × IsQuiet f
      × (f.content ≡ linked l (t.locs.buf.cp - t.locs.buf.sp - 8) t.locs.content)
      × (f.buf.size ≡ t.locs.buf.size)
unfolding loc_append
loc_append_lem l t (s, a) room short z eight =
    let b = t.locs.buf in
    let (r2, r3, r4, v, h) = with_entry_lem l s.valid room in
    let r1 = (reset_lem 0 s.valid (omega arith)).0 in
    let f4 = record (t.locs) { buf = with_entry l b } in
    let f5 = appended f4 in
    let v5 : IsValid f5.buf = (reset_lem 0 v (omega arith)).1 in
    let i = t.locsize in
    let r6 = put64_lem i v5 (omega arith) in
    let v6 = stored-IsValid (bytes64 i) v5 (omega arith) in
    let o = b.cp - b.sp - 8 in
    let g = record f5 { buf = stored (bytes64 i) f5.buf; offset = o } in
    let h6 : held g.buf ≡ bytes64 i = held-stored (bytes64 i) v5 refl (omega arith) in
    let l4 : len f4.buf ≡ length l + 10 = omega (arith, len_lem v) in
    let l8 : len g.buf ≡ 8 = omega (arith, len_lem v6) in
    let e8 : (len g.buf == 0) ≡ false = ground arith in
    let oo : sub_size (add_size 0 (b.cp - b.sp)) 8 ≡ o = omega arith in
    let sz : (t.locsize + len f4.buf) % 2 ^ 64 ≡ length t.locs.content + length l + 10 =
      rw l4 (omega arith) in
    (
      flushed g,
      rw
          (
            loc_append,
            ◌>>=◌,
            ◌>>◌,
            gets,
            focus,
            lift,
            headingdata_lem s.valid,
            r1,
            r2,
            r3,
            r4,
            append_lem f4 v a (omega arith),
            r6,
            oo,
            seek_quiet o (record f5 { buf = stored (bytes64 i) f5.buf }) refl (omega arith),
            write_out-flushed g v6 refl,
          )
          (ap (λ m. some (ok t.locsize, record t { locs = flushed g; locsize = m })) sz
            ∙ ap
                (λ k. some (
                  ok k,
                  record t { locs = flushed g; locsize = length t.locs.content + length l + 10 },
                ))
                z),
      (record { valid = (reset_lem 0 v6 (omega arith)).1; errnos = tt }, refl),
      rw (e8, h6, h, z) refl,
      refl,
    )
