-- ===== src/Db/Chains/Walk.antt =====
-- The loop of kcndb_db_loc_add on a chain of locators (kcndbd/kcndb_db.c).
use kcn.Common.{
  ℕ, suc, ◌+◌, ◌-◌, ◌^◌, ◌≤◌, ◌<◌, ◌≡◌, ◌≢◌, refl, sym, ap, ◌∙◌, List, [], ◌∷◌, ◌++◌, length, take,
  drop, some, Bool, true, false, ◌==◌, ◌&&◌, if◌then◌else◌, inl, inr, Bool-cases, arith, ok,
  length-append, All, append_assoc, take-append-drop, take-append_add,
}
use kcn.Common.Fallible.{E, ◌>>=◌, ◌>>◌, focus, lift, gets, pure}
use kcn.Buf.{Buf, forward, len}
use kcn.Buf.View.{ahead, skip, len_lem}
use kcn.Buf.Cursor.{reset_lem, ahead-held, forward_lem}
use kcn.Buf.Load.{length-ahead, get16_lem, ahead-skip}
use kcn.Buf.Store.{bytes16, bytes64}
use kcn.File.{File}
use kcn.File.Fill.{IsSound}
use kcn.File.Whole.{ensure_at_offset, ensure_enough}
use kcn.Db.Defs.{Table, on_locs_buf}
use kcn.Db.Lookup.{IsQuiet, seek_quiet}
use kcn.Db.Locators.{same_bytes, at_cursor, entry_at}

-- At the offset `i` stand a locator and the offset of the next of its chain, and a block of `n` bytes has
-- room for them.
pub record HasEntry (content : List ℕ) (n i : ℕ) (l : List ℕ) (q : ℕ) : Type 0 where
  pub rest : List ℕ
  pub at_offset : drop i content ≡ bytes16 (length l) ++ (l ++ (bytes64 q ++ rest))
  pub in_half : length l < 2 ^ 16
  pub in_block : length l + 10 ≤ n
  pub in_range : i < 2 ^ 63
  pub in_u64 : q < 2 ^ 64

same_bytes-append : (l r : List ℕ) → same_bytes (l ++ r) l ≡ true
unfolding same_bytes
same_bytes-append [] [] = refl
same_bytes-append [] (y ∷ r) = refl
same_bytes-append (x ∷ l) r = elim (Bool-cases (x == 0)) [
  | inl e ↦ let s : (x == x) ≡ true = ground arith in rw (s, e) refl
  | inr e ↦ let s : (x == x) ≡ true = ground arith in rw (s, e) (same_bytes-append l r)
]

abbrev pub NotNul : ℕ → Type 0
NotNul x = x ≢ 0

-- Strings of one length without a NUL are told apart.
same_bytes-other :
    (m l r : List ℕ) → length l ≡ length m → All NotNul l → m ≢ l → same_bytes (m ++ r) l ≡ false
unfolding same_bytes
same_bytes-other [] [] r n p d = absurd (d refl)
same_bytes-other [] (y ∷ l) r n p d = absurd (omega arith)
same_bytes-other (x ∷ m) [] r n p d = absurd (omega arith)
same_bytes-other (x ∷ m) (y ∷ l) r n (h, p) d = elim (Bool-cases (x == y)) [
  | inl e ↦
      let z : (y == 0) ≡ false = ground arith in
      let same : x ≡ y = ground arith in
      rw (e, z) (same_bytes-other m l r (omega arith) p (λ k. d (rw (same, k) refl)))
  | inr e ↦ rw e refl
]

ahead-drop :
    (b : Buf) (m r : List ℕ)
    → ahead b ≡ m ++ r
    → drop b.cp b.bytes ≡ m ++ (r ++ drop (b.ep - b.cp) (drop b.cp b.bytes))
ahead-drop b m r e =
    let rest = drop (b.ep - b.cp) (drop b.cp b.bytes) in
    sym (take-append-drop (b.ep - b.cp) (drop b.cp b.bytes))
    ∙ ap (λ a. a ++ rest) e
    ∙ append_assoc m r rest

take_entry :
    (n q : ℕ) (m r : List ℕ)
    → length m + 10 ≤ n
    → (x : List ℕ) × (take n (bytes16 (length m) ++ (m ++ (bytes64 q ++ r)))
        ≡ bytes16 (length m) ++ (m ++ (bytes64 q ++ x)))
take_entry n q m r h =
    let e : n
        ≡ suc (suc (length m + suc (suc (suc (suc (suc (suc (suc (suc (n - length m - 10)))))))))) =
      omega arith in
    (
      take (n - length m - 10) r,
      ap (λ k. take k (bytes16 (length m) ++ (m ++ (bytes64 q ++ r)))) e
          ∙ ap (λ z. bytes16 (length m) ++ z)
              (take-append_add m (bytes64 q ++ r)
                (suc (suc (suc (suc (suc (suc (suc (suc (n - length m - 10)))))))))),
    )

-- What entry_at does where it has the length of a locator.
abbrev judged : List ℕ → List ℕ → E Table Bool
judged l m t =
    (if length l == length m && at_cursor t.locs.buf l
        then pure true
        else (do on_locs_buf (forward (length m)); pure false))
      t

entry_at-judged :
    (i q : ℕ) (l m : List ℕ) (t : Table)
    → IsQuiet t.locs
    → HasEntry t.locs.content t.locs.buf.size i m q
    → (f : File) × (entry_at i l t ≡ judged l m (record t { locs = f }))
      × IsQuiet f
      × (f.content ≡ t.locs.content)
      × (f.buf.size ≡ t.locs.buf.size)
      × (f.buf.cp - f.buf.sp ≡ 2)
      × ((r : List ℕ) × (ahead f.buf ≡ m ++ (bytes64 q ++ r)))
unfolding entry_at
entry_at-judged i q l m t (s, a) h =
    let (r1, v1) = reset_lem 0 s.valid (omega arith) in
    let f0 : File = record (t.locs) { offset = i } in
    let f1 : File = record f0 { buf = record (t.locs.buf) { cp = 0; sp = 0; ep = 0 } } in
    let s1 : IsSound f1 = record { valid = v1; errnos = s.errnos } in
    let whole = bytes16 (length m) ++ (m ++ (bytes64 q ++ h.rest)) in
    let long : length whole ≡ length m + 10 + length h.rest =
      omega (arith, length-append m (bytes64 q ++ h.rest)) in
    let (g, e, sg, hg, c, zg, k, ag, at) =
      ensure_at_offset 2 whole s1 a (omega arith) (omega (arith, h.in_block)) (omega arith) refl
        refl h.at_offset in
    let (x, tk) = take_entry t.locs.buf.size q m h.rest h.in_block in
    let tail = m ++ (bytes64 q ++ x) in
    let none_behind : g.buf.cp - g.buf.sp ≡ 0 = omega arith in
    let a0 : ahead g.buf ≡ bytes16 (length m) ++ tail =
      ahead-held sg.valid ∙ rw none_behind (hg ∙ tk) in
    let y = get16_lem (length m) tail sg.valid h.in_half a0 in
    let (v2, a2) = ahead-skip (bytes16 (length m)) tail sg.valid a0 in
    let f2 : File = record g { buf = skip 2 g.buf } in
    let n : length tail ≡ length m + 8 + length x =
      omega (arith, length-append m (bytes64 q ++ x)) in
    let enough : length m + 8 ≤ len f2.buf =
      omega (arith, len_lem v2, length-ahead v2, ap (λ (r : List ℕ). length r) a2) in
    let v = sg.valid in
    (
      f2,
      rw
          (
            entry_at,
            ◌>>=◌,
            ◌>>◌,
            gets,
            focus,
            lift,
            seek_quiet i t.locs a h.in_range,
            r1,
            e,
            y,
            ensure_enough (length m + 8) {f = f2} enough,
          )
          refl,
      (record { valid = v2; errnos = sg.errnos }, ag),
      k,
      zg,
      omega arith,
      (x, a2),
    )

-- The locator that is looked for is found, and nothing is read past it.
pub entry_same :
    (i q : ℕ) (l : List ℕ) (t : Table)
    → IsQuiet t.locs
    → HasEntry t.locs.content t.locs.buf.size i l q
    → (f : File) × (entry_at i l t ≡ some (ok true, record t { locs = f }))
      × IsQuiet f
      × (f.content ≡ t.locs.content)
      × (f.buf.size ≡ t.locs.buf.size)
unfolding at_cursor
entry_same i q l t s h =
    let (f, e, g, c, z, o, (r, a)) = entry_at-judged i q l l t s h in
    let same : (length l == length l) ≡ true = ground arith in
    let d = ahead-drop f.buf l (bytes64 q ++ r) a in
    (f, e ∙ rw (same, d, same_bytes-append l) refl, g, c, z)

-- Another one is passed: the cursor stands at the offset of the next.
pub entry_other :
    (i q : ℕ) (l m : List ℕ) (t : Table)
    → IsQuiet t.locs
    → HasEntry t.locs.content t.locs.buf.size i m q
    → All NotNul l
    → m ≢ l
    → (f : File) × (entry_at i l t ≡ some (ok false, record t { locs = f }))
      × IsQuiet f
      × (f.content ≡ t.locs.content)
      × (f.buf.size ≡ t.locs.buf.size)
      × (f.buf.cp - f.buf.sp ≡ 2 + length m)
      × ((r : List ℕ) × (ahead f.buf ≡ bytes64 q ++ r))
unfolding at_cursor
entry_other i q l m t s h p d =
    let (f, e, (sf, af), c, z, o, (r, a)) = entry_at-judged i q l m t s h in
    let v = sf.valid in
    let n : length (m ++ (bytes64 q ++ r)) ≡ length m + 8 + length r =
      omega (arith, length-append m (bytes64 q ++ r)) in
    let fits : f.buf.cp + length m ≤ f.buf.ep =
      omega (arith, length-ahead v, ap (λ (r : List ℕ). length r) a) in
    let (v', a') = ahead-skip m (bytes64 q ++ r) v a in
    let w = forward_lem (length m) v fits in
    let no : (length l == length m && at_cursor f.buf l) ≡ false =
      elim (Bool-cases (length l == length m)) [
        | inl k ↦
            rw (k, ahead-drop f.buf m (bytes64 q ++ r) a)
              (same_bytes-other m l _ (ground arith) p d)
        | inr k ↦ rw k refl
      ] in
    (
      record f { buf = skip (length m) f.buf },
      e ∙ rw (no, ◌>>◌, focus, lift, w) refl,
      (record { valid = v'; errnos = sf.errnos }, af),
      c,
      z,
      omega arith,
      (r, a'),
    )
