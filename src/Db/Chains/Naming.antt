-- ===== src/Db/Chains/Naming.antt =====
-- The offset that kcndb_db_loc_add gives a locator, and kcndb_db_loc_lookup (kcndbd/kcndb_db.c).
use kcn.Common.{
  ℕ, suc, ◌+◌, ◌*◌, ◌^◌, ◌≤◌, ◌<◌, ◌≡◌, ◌≢◌, refl, sym, ap, ◌∙◌, List, [], ◌∷◌, ◌++◌, length, drop,
  some, arith, ok, length-append, length-drop, All, drop-append_left, drop-append_le, append_assoc,
  ◌/◌, ◌%◌,
}
use kcn.Buf.Store.{bytes64}
use kcn.Str.Hash.{str_hash-base33}
use kcn.File.{File}
use kcn.File.Overwrite.{length-overwrite, drop-overwrite_at, drop-overwrite_behind}
use kcn.Db.Defs.{Table, hashsiz, indexsiz, indextablesiz}
use kcn.Db.Lookup.{IsQuiet, HasLocator, loc_lookup_lem}
use kcn.Db.Locators.{loc_add, loc_lookup}
use kcn.Db.Chains.Append.{entry, linked}
use kcn.Db.Chains.Slots.{PointsTo}
use kcn.Db.Chains.Walk.{HasEntry, NotNul}
use kcn.Db.Chains.Add.{IsLocFile, hash, loc_add_known, loc_add_new}

-- A place in the table of offsets, and a file that has the table.
abbrev pub IsTablePlace : ℕ → List ℕ → Type 0
IsTablePlace o c = (o + 8 ≤ indextablesiz) × (indextablesiz ≤ length c)

-- Behind the table the file is as before, and the locator follows.
drop-linked :
    (l : List ℕ) (o i : ℕ) (c : List ℕ)
    → IsTablePlace o c
    → indextablesiz ≤ i
    → i ≤ length c
    → drop i (linked l o c) ≡ drop i c ++ entry l
drop-linked l o i c (p, n) h k =
    drop-overwrite_behind o i (bytes64 (length c)) (c ++ entry l)
      (omega (arith, length-append c (entry l))) (omega arith)
    ∙ drop-append_le i c (entry l) k

new_entry :
    (l : List ℕ) (o : ℕ) (c : List ℕ) → IsTablePlace o c → drop (length c) (linked l o c) ≡ entry l
new_entry l o c (p, n) =
    drop-overwrite_behind o (length c) (bytes64 (length c)) (c ++ entry l)
      (omega (arith, length-append c (entry l))) (omega arith)
    ∙ drop-append_left c (entry l)

length-linked :
    (l : List ℕ) (o : ℕ) (c : List ℕ)
    → IsTablePlace o c
    → length (linked l o c) ≡ length c + length l + 10
length-linked l o c (p, n) =
    length-overwrite o (bytes64 (length c)) (c ++ entry l)
      (omega (arith, length-append c (entry l)))
    ∙ omega (arith, length-append c (entry l), length-append l (bytes64 0))

pub hash_place : (l c : List ℕ) → indextablesiz ≤ length c → IsTablePlace (indexsiz * hash l) c
hash_place l c n =
    let small = (str_hash-base33 l (length l) hashsiz (omega arith)).1 in (omega arith, n)

-- A locator that was in the file.
pub kept_locator :
    (l m : List ℕ) (o j n : ℕ) (c : List ℕ)
    → IsTablePlace o c
    → indextablesiz ≤ j
    → HasLocator c n j m
    → HasLocator (linked l o c) n j m
kept_locator l m o j n c p b h =
    let inside : j ≤ length c =
      omega (arith, length-drop j c, ap (λ (r : List ℕ). length r) h.at_offset) in
    record {
      rest = h.rest ++ entry l;
      at_offset =
          drop-linked l o j c p b inside
          ∙ ap (λ r. r ++ entry l) h.at_offset
          ∙ ap (λ r. ((length m / 256) % 256) ∷ (length m % 256) ∷ r)
              (append_assoc m h.rest (entry l));
      in_half = h.in_half;
      in_block = h.in_block;
      in_range = h.in_range;
    }

module _ (l : List ℕ) (t : Table) (i : IsLocFile t) (free : PointsTo t.locs.content (hash l) 0)
    (plain : All NotNul l) (in_half : length l < 2 ^ 16) (room : length l + 10 ≤ t.locs.buf.size)
    (short : length t.locs.content + length l + 10 < 2 ^ 63) where
  -- The table behind the addition, with the file as the operations leave it.
  abbrev pub added : File → Table
  added f = record t { locs = f; locsize = length t.locs.content + length l + 10 }

  pub place : IsTablePlace (indexsiz * hash l) t.locs.content
  place = hash_place l t.locs.content i.table

  pub after_add :
      (fuel : ℕ)
      → (f : File) × (loc_add (suc fuel) l t ≡ some (ok (length t.locs.content), added f))
        × IsQuiet f
        × (f.content ≡ linked l (indexsiz * hash l) t.locs.content)
        × (f.buf.size ≡ t.locs.buf.size)
  after_add fuel =
      let z : suc fuel ≡ 0 + suc fuel = omega arith in
      let (f, e, q, c, n) =
        loc_add_new [] fuel 0 l t i free (omega arith) refl plain tt room short in
      (f, ap (λ k. loc_add k l t) z ∙ e, q, c, n)

  -- What the file has then, as the lookup and the loop read it.
  pub new_locator :
      HasLocator
        (linked l (indexsiz * hash l) t.locs.content)
        t.locs.buf.size
        (length t.locs.content)
        l
  new_locator = record {
    rest = bytes64 0;
    at_offset = new_entry l (indexsiz * hash l) t.locs.content place;
    in_half = in_half;
    in_block = omega arith;
    in_range = omega arith;
  }

  new_link :
      HasEntry
        (linked l (indexsiz * hash l) t.locs.content)
        t.locs.buf.size
        (length t.locs.content)
        l
        0
  new_link = record {
    rest = [];
    at_offset = new_entry l (indexsiz * hash l) t.locs.content place;
    in_half = in_half;
    in_block = room;
    in_range = omega arith;
    in_u64 = omega arith;
  }

  new_place :
      PointsTo (linked l (indexsiz * hash l) t.locs.content) (hash l) (length t.locs.content)
  new_place = record {
    rest = drop (indexsiz * hash l + 8) (t.locs.content ++ entry l);
    at_entry =
        drop-overwrite_at (indexsiz * hash l) (bytes64 (length t.locs.content))
          (t.locs.content ++ entry l)
          (omega (arith, place, length-append t.locs.content (entry l)));
  }

  pub added-IsLocFile :
      (f : File)
      → IsQuiet f
      → f.content ≡ linked l (indexsiz * hash l) t.locs.content
      → f.buf.size ≡ t.locs.buf.size
      → IsLocFile (added f)
  added-IsLocFile f q c n =
      let m : length f.content ≡ length t.locs.content + length l + 10 =
        ap (λ (r : List ℕ). length r) c
        ∙ length-linked l (indexsiz * hash l) t.locs.content place in
      record {
        quiet = q;
        block = omega (arith, i.block);
        table = omega (arith, i.table);
        counted = sym m;
      }

  -- On a file of locators that has its table and whose calls all do what they can, kcndb_db_loc_add
  -- gives a locator without a NUL, of less than 2 ^ 16 bytes, whose hash value has no chain yet, and
  -- for which there is room in the block and in a file of less than 2 ^ 63 bytes, the offset that was the
  -- end of the file. kcndb_db_loc_lookup then finds its bytes at that offset, and adding it
  -- once more gives the same offset and adds nothing to the file.
  pub loc_add-loc_lookup :
      (fuel : ℕ)
      → (f g k : File) × (loc_add (suc fuel) l t ≡ some (ok (length t.locs.content), added f))
        × (loc_lookup (length t.locs.content) (added f) ≡ some (ok l, added g))
        × (loc_add (suc fuel) l (added g) ≡ some (ok (length t.locs.content), added k))
        × (k.content ≡ f.content)
  loc_add-loc_lookup fuel =
      let (f, e, q, c, n) = after_add fuel in
      let (g, e', q', c', n') =
        loc_lookup_lem (length t.locs.content) l (added f) q (rw (c, n) new_locator)
          (omega arith) in
      let d : length t.locs.content ≢ 0 = λ z. omega (arith, i.table) in
      let c2 = c' ∙ c in
      let n2 = n' ∙ n in
      let z : suc fuel ≡ 0 + suc fuel = omega arith in
      let (k, e'', q'', c'', n'') =
        loc_add_known [] fuel (length t.locs.content) (length t.locs.content) 0 l (added g)
          (added-IsLocFile g q' c2 n2) (rw c2 new_place) (omega arith) refl d (rw (c2, n2) new_link)
          plain tt in
      (f, g, k, e, e', ap (λ x. loc_add x l (added g)) z ∙ e'', c'' ∙ c')
