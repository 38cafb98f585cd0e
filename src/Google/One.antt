-- ===== src/Google/One.antt =====
-- One request of kcn_google_search, kcn_google_search_one (lib/kcn_google.c).
use kcn.Common.{
  ℕ, zero, suc, ◌+◌, ◌-◌, ◌≤◌, ◌<◌, ◌≡◌, refl, sym, ap, ◌∙◌, List, [], ◌∷◌, ◌++◌, length, take, map,
  Option, some, Bool, true, false, ◌==◌, inl, inr, Bool-cases, Option-cases, if◌then◌else◌, arith,
  Outcome, ok, bad, enomem, esrch, einval, lt→ltb, take-all, append-nil, append_assoc,
  length-append, take-nil,
}
use kcn.Common.Text.{c_string}
use kcn.Info.{Info, Loc, nlocs, loc_add}
use kcn.Google.Defs.{
  Json, results, result_string, take_result, results_loop, take_results, take_response, search_one,
  loc_key,
}

-- The information with some locators more.
abbrev pub with_locs : List Loc → Info → Info
with_locs new ki = record ki { locs = ki.locs ++ new }

-- A locator that a response gives, whose score is 0.
abbrev pub loc_of : List ℕ → Loc
loc_of s = record { uri = s; score = 0 }

-- Locators have been added, `n` at most, and there are no more than were asked for.
pub record Grown (n : ℕ) (ki ki' : Info) : Type 0 where
  pub new : List Loc
  pub behind : ki' ≡ with_locs new ki
  pub few : length new ≤ n
  pub fits : length ki.locs + length new ≤ ki.maxnlocs

pub nothing : (n : ℕ) {ki : Info} → length ki.locs ≤ ki.maxnlocs → Grown n ki ki
nothing n {ki} h = record {
  new = [];
  behind = ap (λ l. record ki { locs = l }) (sym (append-nil ki.locs));
  few = omega arith;
  fits = omega arith;
}

-- Where there is room, kcn_info_loc_add adds the string or has no memory.
loc_add_lem :
    (b : Bool) (ki : Info) (s : List ℕ)
    → length ki.locs < ki.maxnlocs
    → loc_add b ki s (length s) 0
      ≡ some (if b then ok (with_locs (loc_of s ∷ []) ki) else bad enomem)
unfolding loc_add nlocs
loc_add_lem false ki s h = rw (lt→ltb _ _ h) refl
loc_add_lem true ki s h = rw (lt→ltb _ _ h, take-all (length s) s (omega arith)) refl

grown_more :
    (n : ℕ) (s : List ℕ) (ki ki' : Info)
    → Grown n (with_locs (loc_of s ∷ []) ki) ki'
    → Grown (suc n) ki ki'
grown_more n s ki ki' g = record {
  new = loc_of s ∷ g.new;
  behind = g.behind ∙ ap (λ l. record ki { locs = l }) (append_assoc ki.locs (loc_of s ∷ []) g.new);
  few = omega (arith, g.few);
  fits = omega (arith, g.fits, length-append ki.locs (loc_of s ∷ []));
}

-- The information behind a request whose results are some strings.
abbrev pub taken : Info → List (List ℕ) → Info
taken ki ss = with_locs (map loc_of (take (ki.maxnlocs - nlocs ki) ss)) ki

abbrev Answer : Type 0
Answer = Option (Outcome (Unit {0}) × Info)

none_found :
    (b : Bool) (ki : Info)
    → (let e : Answer = some (bad esrch, ki) in if b then e else some (ok tt, ki))
      ≡ some (if b then bad esrch else ok tt, ki)
none_found true ki = refl
none_found false ki = refl

module _ (json : Json) where
  open json use {Value, loads, object_get, array_size, array_get}

  -- The strings of the results from an index on, where each of those that are left has one.
  pub data Strings (key : List ℕ) (arr : Value) : ℕ → ℕ → List (List ℕ) → Type 0 where
    no_more : {i : ℕ} → Strings key arr zero i []
    one_more :
        {left i : ℕ} {v : Value} {s : List ℕ} {ss : List (List ℕ)}
        → array_get arr i ≡ some v
        → result_string json (object_get v key) ≡ some s
        → Strings key arr left (suc i) ss
        → Strings key arr (suc left) i (s ∷ ss)

  results_loop_lem :
      (memory : ℕ → Bool) (key : List ℕ) (arr : Value) (left i : ℕ) (ki : Info)
      → length ki.locs < ki.maxnlocs
      → (o : Outcome (Unit {0})) × (ki' : Info) × (results_loop json memory key arr left i ki
          ≡ some (o, ki'))
        × Grown left ki ki'
  unfolding results_loop take_result nlocs
  results_loop_lem memory key arr zero i ki h = (ok tt, ki, refl, nothing 0 (omega arith))
  results_loop_lem memory key arr (suc left) i ki h = elim (Option-cases (array_get arr i)) [
    | inl a ↦ (ok tt, ki, rw (results_loop, a) refl, nothing _ (omega arith))
    | inr (v, a) ↦ elim (Option-cases (result_string json (object_get v key))) [
      | inl r ↦ (bad einval, ki, rw (results_loop, a, r) refl, nothing _ (omega arith))
      | inr (s, r) ↦ elim (Bool-cases (memory (length ki.locs))) [
        | inr m ↦
            let e = loc_add_lem false ki s h in
            (
              bad enomem,
              ki,
              rw (results_loop, a, r, take_result, m, e) refl,
              nothing _ (omega arith),
            )
        | inl m ↦
            let e = loc_add_lem true ki s h in
            let ki1 = with_locs (loc_of s ∷ []) ki in
            let n : length ki1.locs ≡ length ki.locs + 1 = length-append ki.locs (loc_of s ∷ []) in
            elim (Bool-cases (length ki1.locs == ki.maxnlocs)) [
              | inl f ↦ (
                ok tt,
                ki1,
                rw (results_loop, a, r, take_result, m, e, f) refl,
                grown_more left s ki ki1 (nothing left (omega arith)),
              )
              | inr f ↦
                  let (o, ki', g, w) =
                    results_loop_lem memory key arr left (suc i) ki1 (ground arith) in
                  (
                    o,
                    ki',
                    rw (results_loop, a, r, take_result, m, e, f) g,
                    grown_more left s ki ki' w,
                  )
            ]
      ]
    ]
  ]

  -- Each response has `n` results at most, as the request asks.
  pub record Honours (http : List ℕ → Outcome (List ℕ)) (n : ℕ) : Type 0 where
    pub few_results :
        (uri res : List ℕ) (arr : Value)
        → http uri ≡ ok res
        → results json (loads (c_string res)) ≡ ok arr
        → array_size arr ≤ n

  -- What a request makes of the information: locators are added, and success has one at least.
  pub record Asked (n : ℕ) (ki : Info) (r : Option (Outcome (Unit {0}) × Info)) : Type 0 where
    pub outcome : Outcome (Unit {0})
    pub info : Info
    pub returns : r ≡ some (outcome, info)
    pub grown : Grown n ki info
    pub found : outcome ≡ ok tt → 0 < length info.locs

  pub asked_failed :
      (n e : ℕ) {ki : Info} → length ki.locs ≤ ki.maxnlocs → Asked n ki (some (bad e, ki))
  asked_failed n e {ki} h = record {
    outcome = bad e;
    info = ki;
    returns = refl;
    grown = nothing n h;
    found = λ z. absurd (cc);
  }

  take_results_lem :
      (memory : ℕ → Bool) (key : List ℕ) (r : Outcome Value) (n : ℕ) (ki : Info)
      → length ki.locs < ki.maxnlocs
      → ((arr : Value) → r ≡ ok arr → array_size arr ≤ n)
      → Asked n ki (take_results json memory key r ki)
  unfolding take_results nlocs
  take_results_lem memory key (bad e) n ki h b = asked_failed n e (omega arith)
  take_results_lem memory key (ok arr) n ki h b =
      let (o, ki', e, g) = results_loop_lem memory key arr (array_size arr) 0 ki h in
      let g' : Grown n ki ki' = record {
        new = g.new;
        behind = g.behind;
        few = omega (arith, g.few, b arr refl);
        fits = g.fits;
      } in
      settled o ki' e g'
    where
      settled :
          (o : Outcome (Unit {0})) (ki' : Info)
          → results_loop json memory key arr (array_size arr) 0 ki ≡ some (o, ki')
          → Grown n ki ki'
          → Asked n ki (take_results json memory key (ok arr) ki)
      settled (bad e) ki' f g = record {
        outcome = bad e;
        info = ki';
        returns = rw (take_results, f) refl;
        grown = g;
        found = λ z. absurd (cc);
      }
      settled (ok tt) ki' f g = elim (Bool-cases (length ki'.locs == 0)) [
        | inl z ↦ record {
          outcome = bad esrch;
          info = ki';
          returns = rw (take_results, f, z) refl;
          grown = g;
          found = λ y. absurd (cc);
        }
        | inr z ↦ record {
          outcome = ok tt;
          info = ki';
          returns = rw (take_results, f, z) refl;
          grown = g;
          found = λ y. ground arith;
        }
      ]

  take_response_lem :
      (http : List ℕ → Outcome (List ℕ)) (memory : ℕ → Bool) (key uri : List ℕ)
      (r : Outcome (List ℕ)) (n : ℕ) (ki : Info)
      → length ki.locs < ki.maxnlocs
      → http uri ≡ r
      → Honours http n
      → Asked n ki (take_response json memory key r ki)
  unfolding take_response
  take_response_lem http memory key uri (bad e) n ki h f k = asked_failed n e (omega arith)
  take_response_lem http memory key uri (ok res) n ki h f k =
      take_results_lem memory key (results json (loads (c_string res))) n ki h
        (λ arr e. k.few_results uri res arr f e)

  -- A request, while there is room, for a type of locators that has a key.
  pub search_one_total :
      (http : List ℕ → Outcome (List ℕ)) (memory : ℕ → Bool) (key uri : List ℕ) (n : ℕ) (ki : Info)
      → length ki.locs < ki.maxnlocs
      → loc_key ki.loctype ≡ some key
      → Honours http n
      → Asked n ki (search_one json http memory uri ki)
  unfolding search_one nlocs
  search_one_total http memory key uri n ki h t k =
      rw (search_one, lt→ltb _ _ h, t)
        (take_response_lem http memory key uri (http uri) n ki h refl k)

  -- Where memory never fails and every result has a string, the loop takes them while there is room.
  results_loop_taken :
      (memory : ℕ → Bool) (key : List ℕ) (arr : Value) (left i : ℕ) (ki : Info) (ss : List (List ℕ))
      → ((n : ℕ) → memory n ≡ true)
      → length ki.locs < ki.maxnlocs
      → Strings key arr left i ss
      → results_loop json memory key arr left i ki
        ≡ some (ok tt, with_locs (map loc_of (take (ki.maxnlocs - length ki.locs) ss)) ki)
  unfolding results_loop take_result nlocs
  results_loop_taken memory key arr zero i ki ss m h no_more = rw (take-nil, append-nil) refl
  results_loop_taken memory key arr (suc left) i ki ss m h (one_more {v} {s} {ss = more} a r rest) =
      let e = loc_add_lem true ki s h in
      let ki1 = with_locs (loc_of s ∷ []) ki in
      let n : length ki1.locs ≡ length ki.locs + 1 = length-append ki.locs (loc_of s ∷ []) in
      let k : ki.maxnlocs - length ki.locs ≡ suc (ki.maxnlocs - length ki1.locs) =
        omega (arith, n) in
      elim (Bool-cases (length ki1.locs == ki.maxnlocs)) [
        | inl f ↦
            let z : ki.maxnlocs - length ki1.locs ≡ 0 = ground arith in
            rw (results_loop, a, r, take_result, m (length ki.locs), e, f, k, z) refl
        | inr f ↦
            rw (results_loop, a, r, take_result, m (length ki.locs), e, f, k)
              (results_loop_taken memory key arr left (suc i) ki1 more m (ground arith) rest
                ∙ ap (λ l. some (ok tt, record ki { locs = l }))
                    (append_assoc ki.locs (loc_of s ∷ [])
                      (map loc_of (take (ki.maxnlocs - length ki1.locs) more))))
      ]

  -- kcn_google_search_one on a response whose results each have a string under the key of the type of
  -- locators, while there is room and where memory does not fail: as many of the strings are
  -- added, in their order and with the score 0, as there is room for. Where there is no locator
  -- at all it fails with ESRCH; otherwise it succeeds.
  pub search_one_lem :
      (http : List ℕ → Outcome (List ℕ)) (memory : ℕ → Bool) (uri : List ℕ) (ki : Info)
      {key res : List ℕ} {arr : Value} (ss : List (List ℕ))
      → ((n : ℕ) → memory n ≡ true)
      → nlocs ki < ki.maxnlocs
      → loc_key ki.loctype ≡ some key
      → http uri ≡ ok res
      → results json (loads (c_string res)) ≡ ok arr
      → Strings key arr (array_size arr) 0 ss
      → search_one json http memory uri ki
        ≡ some (if nlocs (taken ki ss) == 0 then bad esrch else ok tt, taken ki ss)
  unfolding search_one nlocs
  search_one_lem http memory uri ki {key} {res} {arr} ss m h t w r g =
      let e = results_loop_taken memory key arr (array_size arr) 0 ki ss m h g in
      rw (search_one, lt→ltb _ _ h, t, w, take_response, r, take_results, e)
        (none_found (length (taken ki ss).locs == 0) (taken ki ss))
