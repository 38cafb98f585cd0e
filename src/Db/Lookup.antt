-- ===== src/Db/Lookup.antt =====
-- What kcndb_db_loc_lookup finds (kcndbd/kcndb_db.c).
use kcn.Common.{
  ℕ, zero, suc, ◌+◌, ◌-◌, ◌/◌, ◌%◌, none, false, ◌≤◌, ◌<◌, ◌^◌, ◌≡◌, refl, sym, ap, ◌∙◌, List, [],
  ◌∷◌, ◌++◌, length, take, drop, some, ltb, le→ltb, leb, arith, ok, length-append, length-take,
  take-append_left, take-take,
}
use kcn.Common.Fallible.{◌>>=◌, ◌>>◌, gets, focus}
use kcn.Buf.{Buf, len}
use kcn.Buf.View.{IsValid, ahead, skip, len_lem}
use kcn.Buf.Load.{get16_lem, ahead-skip, length-ahead}
use kcn.Buf.Cursor.{reset_lem}
use kcn.Buf.Store.{bytes16}
use kcn.File.{File, Answer, seek_head, seek, next}
use kcn.File.Fill.{IsSound}
use kcn.File.Whole.{ensure_enough, ensure_whole}
use kcn.Db.Defs.{Table}
use kcn.Db.Locators.{loc_lookup}

-- The bytes of a file of locators have the locator `l` at the offset `i`, and a block of `n` bytes has
-- room for it and its length.
pub record HasLocator (content : List ℕ) (n i : ℕ) (l : List ℕ) : Type 0 where
  pub rest : List ℕ
  pub at_offset : drop i content ≡ ((length l / 256) % 256) ∷ (length l % 256) ∷ (l ++ rest)
  pub in_half : length l < 2 ^ 16
  pub in_block : 2 + length l ≤ n
  pub in_range : i < 2 ^ 63

-- A file that is sound and whose calls all do what they can.
abbrev pub IsQuiet : File → Type 0
IsQuiet f = IsSound f × (f.answers ≡ [])

next_quiet : (l : List Answer) → l ≡ [] → next l ≡ none
unfolding next
next_quiet [] h = refl
next_quiet (a ∷ l) h = cc

pub seek_quiet :
    (i : ℕ) (f : File)
    → f.answers ≡ []
    → i < 2 ^ 63
    → seek_head i f ≡ some (ok tt, record f { offset = i })
unfolding seek_head seek
seek_quiet i f a h =
    let k : leb (2 ^ 63) i ≡ false = ground arith in
    rw (seek_head, seek, next_quiet f.answers a, k) refl

take_two : (n x y : ℕ) (r : List ℕ) → 2 ≤ n → take n (x ∷ y ∷ r) ≡ x ∷ y ∷ take (n - 2) r
take_two zero x y r h = absurd (omega arith)
take_two (suc zero) x y r h = absurd (omega arith)
take_two (suc (suc n)) x y r h =
    let m : n ≡ suc (suc n) - 2 = omega arith in ap (λ k. x ∷ y ∷ take k r) m

-- A locator that is ahead in a buffer.
taken :
    (n : ℕ) (b : Buf) (l rest : List ℕ)
    → IsValid b
    → length l ≤ n
    → ahead b ≡ take n (l ++ rest)
    → take (length l) (drop b.cp b.bytes) ≡ l
taken n b l rest v h e =
    let m : length l ≤ b.ep - b.cp = omega (
      arith,
      length-ahead v,
      ap (λ (r : List ℕ). length r) e,
      length-take n (l ++ rest),
      length-append l rest,
    ) in
    sym (take-take (length l) (b.ep - b.cp) (drop b.cp b.bytes) m)
    ∙ ap (λ r. take (length l) r) e
    ∙ take-take (length l) n (l ++ rest) h
    ∙ take-append_left l rest

-- kcndb_db_loc_lookup at the offset of a locator gives its bytes.
pub loc_lookup_lem :
    (i : ℕ) (l : List ℕ) (t : Table)
    → IsQuiet t.locs
    → HasLocator t.locs.content t.locs.buf.size i l
    → i ≤ t.locsize
    → (f : File) × (loc_lookup i t ≡ some (ok l, record t { locs = f }))
      × IsQuiet f
      × (f.content ≡ t.locs.content)
      × (f.buf.size ≡ t.locs.buf.size)
unfolding loc_lookup
loc_lookup_lem i l t q h k =
    let (r, v) = reset_lem 0 q.0.valid (omega arith) in
    let f0 : File = record (t.locs) { buf = record (t.locs.buf) { cp = 0; sp = 0; ep = 0 } } in
    let s0 : IsSound (record f0 { offset = i }) = record { valid = v; errnos = q.0.errnos } in
    let w = seek_quiet i f0 q.1 h.in_range in
    let tail = l ++ h.rest in
    let (g, e, s, u, c, z, m, a, at) =
      ensure_whole 2 ((length l / 256) % 256) ((length l % 256) ∷ tail) s0 q.1 (omega arith)
        (omega (arith, h.in_block)) (omega arith) refl refl h.at_offset in
    let n = g.buf.size - 2 in
    let a0 : ahead g.buf ≡ bytes16 (length l) ++ take n tail =
      rw c u
      ∙ take_two f0.buf.size ((length l / 256) % 256) (length l % 256) tail
          (omega (arith, h.in_block))
      ∙ ap (λ k. bytes16 (length l) ++ take (k - 2) tail) (sym z) in
    let x = get16_lem (length l) (take n tail) s.valid h.in_half a0 in
    let (v1, a1) = ahead-skip (bytes16 (length l)) (take n tail) s.valid a0 in
    let b1 = skip 2 g.buf in
    let f1 : File = record g { buf = b1 } in
    let enough : length l ≤ len f1.buf = omega (
      arith,
      len_lem v1,
      ap (λ (r : List ℕ). length r) a1,
      length-take n tail,
      length-append l h.rest,
      length-ahead v1,
      h.in_block,
    ) in
    let y = ensure_enough (length l) {f = f1} enough in
    let t' = taken n b1 l h.rest v1 (omega (arith, h.in_block)) a1 in
    let size : ltb t.locsize i ≡ false = le→ltb t.locsize i k in
    (
      f1,
      rw (size, ◌>>=◌, ◌>>◌, gets, focus, r, w, e, x, y, t') refl,
      (record { valid = v1; errnos = s.errnos }, a),
      m,
      z,
    )
