-- ===== src/Db/Chains/Follow.antt =====
-- Where the loop of kcndb_db_loc_add ends on a chain of locators (kcndbd/kcndb_db.c).
use native.Mathlib.Nat.{suc-add}
use kcn.Common.{
  ℕ, suc, ◌+◌, ◌-◌, ◌^◌, ◌<◌, ◌≡◌, ◌≢◌, refl, ap, ◌∙◌, List, [], ◌∷◌, ◌++◌, length, some, false,
  ◌==◌, arith, ok, All,
}
use kcn.Common.Fallible.{◌>>=◌, focus, lift}
use kcn.Buf.{get64}
use kcn.Buf.View.{ahead, skip}
use kcn.Buf.Load.{get64_lem, ahead-skip}
use kcn.Buf.Store.{bytes64}
use kcn.File.{File}
use kcn.Db.Defs.{Table}
use kcn.Db.Lookup.{IsQuiet}
use kcn.Db.Locators.{chain, chain_step}
use kcn.Db.Chains.Walk.{HasEntry, NotNul, entry_same, entry_other}

-- From the offset `p` the chain has these locators in turn, and then the offset `q`.
abbrev pub Leads : List ℕ → ℕ → ℕ → List (List ℕ) → ℕ → Type 0
Leads c n p [] q = p ≡ q
Leads c n p (m ∷ ms) q = (p ≢ 0) × ((p' : ℕ) × HasEntry c n p m p' × Leads c n p' ms q)

-- Where the cursor stands, from the start of the data, before the offset that a chain ends with.
abbrev pub stop : ℕ → List (List ℕ) → ℕ
stop s [] = s
stop s (m ∷ ms) = stop (2 + length m) ms

abbrev pub Other : List ℕ → List ℕ → Type 0
Other l m = m ≢ l

-- A cursor before an offset, `s` bytes behind the start of the data.
pub record IsBefore (f : File) (s p : ℕ) : Type 0 where
  pub quiet : IsQuiet f
  pub position : f.buf.cp - f.buf.sp ≡ s
  pub rest : List ℕ
  pub in_front : ahead f.buf ≡ bytes64 p ++ rest
  pub in_u64 : p < 2 ^ 64

-- The offset is read.
read_offset :
    (s p : ℕ) {f : File}
    → IsBefore f s p
    → (get64 f.buf ≡ some (p, skip 8 f.buf))
      × IsQuiet (record f { buf = skip 8 f.buf })
      × (f.buf.cp + 8 - f.buf.sp ≡ s + 8)
read_offset s p {f} b =
    let v = b.quiet.0.valid in
    (
      get64_lem p b.rest v b.in_u64 b.in_front,
      (
        record {
          valid = (ahead-skip (bytes64 p) b.rest v b.in_front).0;
          errnos = b.quiet.0.errnos;
        },
        b.quiet.1,
      ),
      omega (arith, v.start_le, b.position),
    )

-- The end of a chain.
pub chain_end :
    (fuel s : ℕ) (l : List ℕ) (t : Table)
    → IsBefore t.locs s 0
    → (f : File) × (chain (suc fuel) l t ≡ some (ok 0, record t { locs = f }))
      × IsQuiet f
      × (f.content ≡ t.locs.content)
      × (f.buf.size ≡ t.locs.buf.size)
      × (f.buf.cp - f.buf.sp ≡ s + 8)
unfolding chain chain_step
chain_end fuel s l t b =
    let (e, q, o) = read_offset s 0 b in
    (
      record (t.locs) { buf = skip 8 t.locs.buf },
      rw (chain, chain_step, ◌>>=◌, focus, lift, e) refl,
      q,
      refl,
      refl,
      o,
    )

-- The locator itself.
pub chain_found :
    (fuel s p q : ℕ) (l : List ℕ) (t : Table)
    → IsBefore t.locs s p
    → p ≢ 0
    → HasEntry t.locs.content t.locs.buf.size p l q
    → (f : File) × (chain (suc fuel) l t ≡ some (ok p, record t { locs = f }))
      × IsQuiet f
      × (f.content ≡ t.locs.content)
      × (f.buf.size ≡ t.locs.buf.size)
unfolding chain chain_step
chain_found fuel s p q l t b d h =
    let (e, k, o) = read_offset s p b in
    let z : (p == 0) ≡ false = ground arith in
    let u = record t { locs = record (t.locs) { buf = skip 8 t.locs.buf } } in
    let (f, y, g, c, n) = entry_same p q l u k h in
    (f, rw (chain, chain_step, ◌>>=◌, focus, lift, e, z, y) refl, g, c, n)

-- Another locator is passed.
chain_other :
    (fuel s p q : ℕ) (l m : List ℕ) (t : Table)
    → IsBefore t.locs s p
    → p ≢ 0
    → HasEntry t.locs.content t.locs.buf.size p m q
    → All NotNul l
    → m ≢ l
    → (f : File) × (chain (suc fuel) l t ≡ chain fuel l (record t { locs = f }))
      × (f.content ≡ t.locs.content)
      × (f.buf.size ≡ t.locs.buf.size)
      × IsBefore f (2 + length m) q
unfolding chain chain_step
chain_other fuel s p q l m t b d h w x =
    let (e, k, o) = read_offset s p b in
    let z : (p == 0) ≡ false = ground arith in
    let u = record t { locs = record (t.locs) { buf = skip 8 t.locs.buf } } in
    let (f, y, g, c, n, o', (r, a)) = entry_other p q l m u k h w x in
    (
      f,
      rw (chain, chain_step, ◌>>=◌, focus, lift, e, z, y) refl,
      c,
      n,
      record { quiet = g; position = o'; rest = r; in_front = a; in_u64 = h.in_u64 },
    )

-- The loop passes every other locator of a chain, a round for each.
pub chain_passes :
    (ms : List (List ℕ)) (fuel s p q : ℕ) (l : List ℕ) (t : Table)
    → IsBefore t.locs s p
    → Leads t.locs.content t.locs.buf.size p ms q
    → All NotNul l
    → All (Other l) ms
    → (f : File) × (chain (length ms + fuel) l t ≡ chain fuel l (record t { locs = f }))
      × (f.content ≡ t.locs.content)
      × (f.buf.size ≡ t.locs.buf.size)
      × IsBefore f (stop s ms) q
chain_passes [] fuel s p q l t b e w x =
    let z : 0 + fuel ≡ fuel = omega arith in
    (t.locs, ap (λ k. chain k l t) z, refl, refl, rw e at b)
chain_passes (m ∷ ms) fuel s p q l t b (d, (p', h, r)) w (x, xs) =
    let (f, e, c, n, b') = chain_other (length ms + fuel) s p p' l m t b d h w x in
    let (g, e', c', n', b'') =
      chain_passes ms fuel (2 + length m) p' q l (record t { locs = f }) b' (rw (c, n) r) w xs in
    (g, rw suc-add (e ∙ e'), c' ∙ c, n' ∙ n, b'')
