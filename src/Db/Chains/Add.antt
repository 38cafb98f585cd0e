-- ===== src/Db/Chains/Add.antt =====
-- kcndb_db_loc_add for a locator that its chain has, and for one that it has not (kcndbd/kcndb_db.c).
use kcn.Common.{
  ℕ, suc, ◌+◌, ◌-◌, ◌*◌, ◌^◌, ◌≤◌, ◌<◌, ◌≡◌, ◌≢◌, refl, sym, ap, ◌∙◌, List, length, some, false,
  ◌==◌, if◌then◌else◌, arith, ok, All,
}
use kcn.Common.Fallible.{E, ◌>>=◌, pure}
use kcn.Str.{str_hash}
use kcn.Str.Hash.{str_hash-base33}
use kcn.File.{File}
use kcn.Db.Defs.{Table, hashsiz, indexsiz, indextablesiz}
use kcn.Db.Lookup.{IsQuiet}
use kcn.Db.Locators.{chain, loc_append, loc_add}
use kcn.Db.Chains.Append.{linked, loc_append_lem}
use kcn.Db.Chains.Slots.{PointsTo, at_slot, at_slot_lem}
use kcn.Db.Chains.Walk.{HasEntry, NotNul}
use kcn.Db.Chains.Follow.{Leads, Other, IsBefore, stop, chain_passes, chain_found, chain_end}

-- A file of locators with its table, whose calls all do what they can.
pub record IsLocFile (t : Table) : Type 0 where
  pub quiet : IsQuiet t.locs
  pub block : indextablesiz ≤ t.locs.buf.size
  pub table : indextablesiz ≤ length t.locs.content
  pub counted : t.locsize ≡ length t.locs.content

abbrev pub hash : List ℕ → ℕ
hash l = str_hash l (length l) hashsiz

-- From the table on.
abbrev add_rest : ℕ → List ℕ → E Table ℕ
add_rest fuel l = do idx ← chain fuel l; if idx == 0 then loc_append l else pure idx

at_slot-add :
    (fuel : ℕ) (l : List ℕ) (t : Table) → loc_add fuel l t ≡ at_slot (hash l) (add_rest fuel l) t
unfolding loc_add
at_slot-add fuel l t = refl

to_chain :
    (fuel p : ℕ) (l : List ℕ) (t : Table)
    → IsLocFile t
    → PointsTo t.locs.content (hash l) p
    → p < 2 ^ 64
    → (f : File) × (loc_add fuel l t ≡ add_rest fuel l (record t { locs = f }))
      × (f.content ≡ t.locs.content)
      × (f.buf.size ≡ t.locs.buf.size)
      × IsBefore f (indexsiz * hash l) p
to_chain fuel p l t i z h =
    let small = (str_hash-base33 l (length l) hashsiz (omega arith)).1 in
    let (f, e, q, c, n, o, (r, a)) =
      at_slot_lem (hash l) p (add_rest fuel l) t i.quiet i.block i.table small z in
    (
      f,
      at_slot-add fuel l t ∙ e,
      c,
      n,
      record { quiet = q; position = o; rest = r; in_front = a; in_u64 = h },
    )

-- A locator that stands in its chain behind others is found, and the file keeps its bytes.
pub loc_add_known :
    (ms : List (List ℕ)) (fuel p q q' : ℕ) (l : List ℕ) (t : Table)
    → IsLocFile t
    → PointsTo t.locs.content (hash l) p
    → p < 2 ^ 64
    → Leads t.locs.content t.locs.buf.size p ms q
    → q ≢ 0
    → HasEntry t.locs.content t.locs.buf.size q l q'
    → All NotNul l
    → All (Other l) ms
    → (f : File) × (loc_add (length ms + suc fuel) l t ≡ some (ok q, record t { locs = f }))
      × IsQuiet f
      × (f.content ≡ t.locs.content)
      × (f.buf.size ≡ t.locs.buf.size)
loc_add_known ms fuel p q q' l t i z h e d y w x =
    let (f, r, c, n, b) = to_chain (length ms + suc fuel) p l t i z h in
    let (g, r', c', n', b') =
      chain_passes ms (suc fuel) (indexsiz * hash l) p q l (record t { locs = f }) b (rw (c, n) e) w
        x in
    let (k, r'', s, c'', n'') =
      chain_found fuel (stop (indexsiz * hash l) ms) q q' l (record t { locs = g }) b' d
        (rw (c', n', c, n) y) in
    let o : (q == 0) ≡ false = ground arith in
    (k, r ∙ rw (◌>>=◌, r' ∙ r'', o) refl, s, c'' ∙ c' ∙ c, n'' ∙ n' ∙ n)

-- A locator is appended behind the loop.
append_behind :
    (s : ℕ) (l : List ℕ) (t : Table) (k : File)
    → IsLocFile t
    → IsQuiet k
    → k.content ≡ t.locs.content
    → k.buf.size ≡ t.locs.buf.size
    → k.buf.cp - k.buf.sp ≡ s + 8
    → length l + 10 ≤ t.locs.buf.size
    → length t.locs.content + length l + 10 < 2 ^ 63
    → (f : File) × (loc_append l (record t { locs = k })
        ≡ some (
          ok (length t.locs.content),
          record t { locs = f; locsize = length t.locs.content + length l + 10 },
        ))
      × IsQuiet f
      × (f.content ≡ linked l s t.locs.content)
      × (f.buf.size ≡ t.locs.buf.size)
append_behind s l t k i q c n o room short =
    let m : length k.content ≡ length t.locs.content = ap (λ (r : List ℕ). length r) c in
    let (j, y, q', c', n') =
      loc_append_lem l (record t { locs = k }) q (omega arith) (omega arith) (i.counted ∙ sym m)
        (omega arith) in
    let at : k.buf.cp - k.buf.sp - 8 ≡ s = omega arith in
    (
      j,
      y ∙ ap (λ z. some (ok z, record t { locs = j; locsize = z + length l + 10 })) m,
      q',
      c' ∙ rw (at, c) refl,
      n' ∙ n,
    )

-- On a file of locators that has its table and whose calls all do what they can, kcndb_db_loc_add
-- comes to the end of the chain of a locator without a NUL that has none equal to it, with a round for
-- each locator there and one more. Where there is room for it in the block and in a file of less than
-- 2 ^ 63 bytes, it writes the locator behind the bytes of the file, makes the size that of the file, and
-- gives the old size as its offset. The offset is written over the eight bytes at the entry of the hash
-- value where the chain is empty; where it is not, at the length of its last locator and two more,
-- from the head of the file, which is not where the offset of the next one stands.
pub loc_add_new :
    (ms : List (List ℕ)) (fuel p : ℕ) (l : List ℕ) (t : Table)
    → IsLocFile t
    → PointsTo t.locs.content (hash l) p
    → p < 2 ^ 64
    → Leads t.locs.content t.locs.buf.size p ms 0
    → All NotNul l
    → All (Other l) ms
    → length l + 10 ≤ t.locs.buf.size
    → length t.locs.content + length l + 10 < 2 ^ 63
    → (f : File) × (loc_add (length ms + suc fuel) l t
        ≡ some (
          ok (length t.locs.content),
          record t { locs = f; locsize = length t.locs.content + length l + 10 },
        ))
      × IsQuiet f
      × (f.content ≡ linked l (stop (indexsiz * hash l) ms) t.locs.content)
      × (f.buf.size ≡ t.locs.buf.size)
loc_add_new ms fuel p l t i z h e w x room short =
    let (f, r, c, n, b) = to_chain (length ms + suc fuel) p l t i z h in
    let (g, r', c', n', b') =
      chain_passes ms (suc fuel) (indexsiz * hash l) p 0 l (record t { locs = f }) b (rw (c, n) e) w
        x in
    let s = stop (indexsiz * hash l) ms in
    let (k, r'', q, c'', n'', o) = chain_end fuel s l (record t { locs = g }) b' in
    let (j, y, q', c3, n3) = append_behind s l t k i q (c'' ∙ c' ∙ c) (n'' ∙ n' ∙ n) o room short in
    (j, r ∙ rw (◌>>=◌, r' ∙ r'', y) refl, q', c3, n3)
