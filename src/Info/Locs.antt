-- ===== src/Info/Locs.antt =====
-- The locators of lib/kcn_info.c.
use mathlib.Core.Option
use kcn.Common.{
  ℕ, zero, suc, ◌+◌, ◌≤◌, ◌<◌, ◌≡◌, refl, ap, List, [], ◌∷◌, ◌++◌, length, get_elem?, take, some,
  none, true, false, ltb, leb, arith, ok, length-append,
}
use kcn.Info.Defs.{Info, Loc, nlocs, loc, loc_add}

-- No more locators than the array has room for.
abbrev pub Fits : Info → Type 0
Fits ki = nlocs ki ≤ ki.maxnlocs

get_elem?-last : (l : List Loc) (x : Loc) → get_elem? (l ++ (x ∷ [])) (length l) ≡ some x
get_elem?-last [] x = refl
get_elem?-last (y ∷ l) x = get_elem?-last l x

get_elem?-before :
    (l : List Loc) (x : Loc) (i : ℕ) → i < length l → get_elem? (l ++ (x ∷ [])) i ≡ get_elem? l i
get_elem?-before [] x i h = absurd (omega arith)
get_elem?-before (y ∷ l) x zero h = refl
get_elem?-before (y ∷ l) x (suc i) h = get_elem?-before l x i (omega arith)

abbrev added : Info → List ℕ → ℕ → ℕ → Info
added ki s len score = record ki {
  locs = ki.locs ++ (record { uri = take len s; score = score } ∷ []);
}

nlocs-added : (ki : Info) (s : List ℕ) (len score : ℕ) → nlocs (added ki s len score) ≡ nlocs ki + 1
unfolding nlocs
nlocs-added ki s len score = length-append ki.locs (record { uri = take len s; score = score } ∷ [])

-- Where there is room and memory, kcn_info_loc_add adds a locator: it is the one at the old number of
-- locators, those before are as they were, none is behind it, and the number still fits.
pub loc-loc_add :
    (ki : Info) (s : List ℕ) (len score i : ℕ)
    → nlocs ki < ki.maxnlocs
    → i < nlocs ki
    → (ki' : Info) × (loc_add true ki s len score ≡ some (ok ki'))
      × (loc ki' (nlocs ki) ≡ some (take len s))
      × (loc ki' i ≡ loc ki i)
      × (loc ki' (nlocs ki + 1) ≡ none)
      × Fits ki'
unfolding loc loc_add nlocs
loc-loc_add ki s len score i h k =
    let room : ltb (length ki.locs) ki.maxnlocs ≡ true = ground arith in
    let n : length (added ki s len score).locs ≡ length ki.locs + 1 =
      length-append ki.locs (record { uri = take len s; score = score } ∷ []) in
    let a : leb (length ki.locs + 1) (length ki.locs) ≡ false = ground arith in
    let b : leb (length ki.locs + 1) i ≡ false = ground arith in
    let c : leb (length ki.locs) i ≡ false = ground arith in
    let d : leb (length ki.locs + 1) (length ki.locs + 1) ≡ true = ground arith in
    (
      added ki s len score,
      rw room refl,
      rw (n, a) (ap (Option.map (λ l. l.uri)) (get_elem?-last ki.locs _)),
      rw (n, b, c) (ap (Option.map (λ l. l.uri)) (get_elem?-before ki.locs _ i k)),
      rw (n, d) refl,
      omega (arith, n),
    )
