-- ===== src/Google/Pages.antt =====
-- The pages of kcn_google_search (lib/kcn_google.c).
use kcn.Common.{
  ℕ, zero, suc, ◌+◌, ◌%◌, ◌^◌, ◌≤◌, ◌<◌, ◌≡◌, refl, sym, ap, ◌∙◌, List, [], ◌++◌, length, Option,
  some, Bool, true, false, not, ltb, ◌==◌, ◌&&◌, ◌||◌, ◌⊎◌, inl, inr, Bool-cases, arith, Outcome,
  ok, bad, enomem, esrch, add_size, length-append, append_assoc,
}
use mathlib.Core.Path.{subst}
use kcn.Common.Text.{codes}
use kcn.Info.{Info, Loc, nlocs}
use kcn.Msg.{loc_domainname, loc_uri}
use kcn.Uri.{Uri}
use kcn.Uri.Encoding.{IsExact}
use kcn.Google.Defs.{
  Json, loc_key, rcountmax, base_params, page_failed, page_taken, page, pages, search_with,
  google_search, uri_base,
}
use kcn.Google.One.{Grown, nothing, Honours, Asked, asked_failed, with_locs, search_one_total}
use kcn.Google.Request.{
  Longer, base_room, page_room, base_params-Longer, page_uri-Longer, resize_lem, new-IsExact,
}

-- The locators that two parts of a search add.
grown_both :
    {b : ℕ} {ki : Info} (new : List Loc) {ki' : Info}
    → Grown b (with_locs new ki) ki'
    → Grown ki.maxnlocs ki ki'
grown_both {ki} new g = record {
  new = new ++ g.new;
  behind = g.behind ∙ ap (λ l. record ki { locs = l }) (append_assoc ki.locs new g.new);
  few = omega (arith, g.fits, length-append ki.locs new, length-append new g.new);
  fits = omega (arith, g.fits, length-append ki.locs new, length-append new g.new);
}

widened : {n : ℕ} {ki ki' : Info} → Grown n ki ki' → Grown ki.maxnlocs ki ki'
widened {ki} g = record {
  new = g.new;
  behind = g.behind;
  few = omega (arith, g.fits);
  fits = g.fits;
}

module _ (json : Json) where
  -- Behind a page that failed with some locators there may be a success.
  failed :
      (e : ℕ) (ki ki' : Info)
      → Grown ki.maxnlocs ki ki'
      → Asked json ki.maxnlocs ki (page_failed e ki')
  unfolding page_failed nlocs
  failed e ki ki' g = elim (Bool-cases (not (e == esrch) || length ki'.locs == 0)) [
    | inl b ↦
        rw (page_failed, b)
          (record {
            outcome = bad e;
            info = ki';
            returns = refl;
            grown = g;
            found = λ z. absurd (cc);
          })
    | inr b ↦
        rw (page_failed, b)
          (record {
            outcome = ok tt;
            info = ki';
            returns = refl;
            grown = g;
            found = λ z. ground arith;
          })
  ]

  -- Where the loop stands: `n` results have been asked for, and there are no more locators than that.
  record Stands (count uriolen fuel n : ℕ) (ku : Uri) (ki : Info) : Type 0 where
    exact : IsExact ku
    same : ku.urilen ≡ uriolen
    counts : 0 < count
    few : length ki.locs ≤ n
    fits : length ki.locs ≤ ki.maxnlocs
    some_found : (n ≡ 0) ⊎ (0 < length ki.locs)
    sizes : ki.maxnlocs + count < 2 ^ 64
    some_asked : 0 < ki.maxnlocs
    enough : ki.maxnlocs < n + fuel
    fuel_left : 0 < fuel

  module _ (http : List ℕ → Outcome (List ℕ)) (alloc : ℕ → ℕ → Bool) (memory : ℕ → Bool)
      (count uriolen : ℕ) (k : Honours json http count) (w : uriolen + page_room + 1 < 2 ^ 64) where
    -- Behind a page that succeeded, with what the rest of the search does.
    page_taken_lem :
        (ku : Uri) (new : List Loc) (ki : Info)
        (next : Uri → Info → Option (Outcome (Unit {0}) × Info))
        → IsExact ku
        → uriolen ≤ ku.urilen
        → Grown ki.maxnlocs ki (with_locs new ki)
        → 0 < length (with_locs new ki).locs
        → ((ku' : Uri)
            → IsExact ku'
            → ku'.urilen ≡ uriolen
            → Asked json ki.maxnlocs ki (next ku' (with_locs new ki)))
        → Asked json ki.maxnlocs ki (page_taken count uriolen ku next (with_locs new ki))
    unfolding page_taken nlocs
    page_taken_lem ku new ki next x l g f rest =
        let (ku', e, x', u) = resize_lem uriolen ku x l in
        elim (Bool-cases (not (length (with_locs new ki).locs % count == 0))) [
          | inl b ↦
              rw (page_taken, e, b)
                (record {
                  outcome = ok tt;
                  info = with_locs new ki;
                  returns = refl;
                  grown = g;
                  found = λ z. f;
                })
          | inr b ↦ rw (page_taken, e, b) (rest ku' x' u)
        ]

    -- What the rest of the search does behind a request.
    abbrev Rest : (Uri → Info → Option (Outcome (Unit {0}) × Info)) → Info → Type 0
    Rest next ki =
        (ku : Uri) (new : List Loc)
        → IsExact ku
        → ku.urilen ≡ uriolen
        → Grown count ki (with_locs new ki)
        → 0 < length (with_locs new ki).locs
        → Asked json ki.maxnlocs ki (next ku (with_locs new ki))

    -- Behind a request that was answered.
    answered :
        (ku : Uri) (ki : Info) (next : Uri → Info → Option (Outcome (Unit {0}) × Info))
        (o : Outcome (Unit {0})) (ki' : Info)
        → IsExact ku
        → uriolen ≤ ku.urilen
        → Grown count ki ki'
        → (o ≡ ok tt → 0 < length ki'.locs)
        → Rest next ki
        → Asked json ki.maxnlocs ki
            (elim o [ bad e ↦ page_failed e ki' | ok u ↦ page_taken count uriolen ku next ki' ])
    answered ku ki next (bad e) ki' x l g f rest = failed e ki ki' (widened g)
    answered ku ki next (ok tt) ki' x l g f rest =
        subst (λ i. Asked json ki.maxnlocs ki (page_taken count uriolen ku next i)) (sym g.behind)
          (let g' = subst (λ i. Grown count ki i) g.behind g in
            let f' = subst (λ (i : Info). 0 < length i.locs) g.behind (f refl) in
            page_taken_lem ku g.new ki next x l (widened g') f'
              (λ ku' x' u. rest ku' g.new x' u g' f'))

    page_lem :
        (key : List ℕ) (next : Uri → Info → Option (Outcome (Unit {0}) × Info)) (b : Bool)
        (ku : Uri) (ki : Info)
        → IsExact ku
        → (b ≡ true → uriolen ≤ ku.urilen)
        → length ki.locs < ki.maxnlocs
        → loc_key ki.loctype ≡ some key
        → Rest next ki
        → Asked json ki.maxnlocs ki (page json http memory count uriolen next b ku ki)
    unfolding page
    page_lem key next false ku ki x l h t rest = asked_failed json ki.maxnlocs enomem (omega arith)
    page_lem key next true ku ki x l h t rest =
        let a = search_one_total json http memory key ku.uri count ki h t k in
        rw (page, a.returns) (answered ku ki next a.outcome a.info x (l refl) a.grown a.found rest)

    pages_lem :
        (key : List ℕ) (fuel n : ℕ) (ku : Uri) (ki : Info)
        → Stands count uriolen fuel n ku ki
        → loc_key ki.loctype ≡ some key
        → Asked json ki.maxnlocs ki (pages json http alloc memory count uriolen fuel n ku ki)
    unfolding pages
    pages_lem key zero n ku ki s t = absurd (omega (arith, s.fuel_left))
    pages_lem key (suc fuel) n ku ki s t = elim (Bool-cases (ltb n ki.maxnlocs)) [
      | inr b ↦
          rw (pages, b)
            (record {
              outcome = ok tt;
              info = ki;
              returns = refl;
              grown = nothing ki.maxnlocs s.fits;
              found = λ z. ground (arith, s.some_found, s.some_asked);
            })
      | inl b ↦
          let r = page_uri-Longer alloc n ku s.exact (omega (arith, s.same, w)) in
          let next = pages json http alloc memory count uriolen fuel (add_size n count) in
          let c : add_size n count ≡ n + count = ground (arith, s.sizes) in
          let h : n < ki.maxnlocs = ground arith in
          rw (pages, b, r.returns)
            (page_lem key next r.flag r.uri ki r.exact
              (λ z. let (a, b) = r.longer z in omega (arith, a, s.same)) (omega (arith, s.few)) t
              (λ ku' new x u g f.
                let m : length (with_locs new ki).locs ≡ length ki.locs + length g.new =
                  ap (λ (i : Info). length i.locs) g.behind ∙ length-append ki.locs g.new in
                let a =
                  pages_lem key fuel (add_size n count) ku' (with_locs new ki)
                    (record {
                      exact = x;
                      same = u;
                      counts = s.counts;
                      few = omega (arith, c, m, g.few, s.few);
                      fits = omega (arith, m, g.fits);
                      some_found = inr f;
                      sizes = s.sizes;
                      some_asked = s.some_asked;
                      enough = omega (arith, c, s.enough, s.counts);
                      fuel_left = omega (arith, s.enough, h);
                    })
                    t in
                record {
                  outcome = a.outcome;
                  info = a.info;
                  returns = a.returns;
                  grown = grown_both new a.grown;
                  found = a.found;
                }))
    ]

  rcountmax_lem : (n : ℕ) → 0 < n → (0 < rcountmax n) × (rcountmax n ≤ 8)
  unfolding rcountmax
  rcountmax_lem n h = ground arith

  search_with_lem :
      (http : List ℕ → Outcome (List ℕ)) (alloc : ℕ → ℕ → Bool) (memory : ℕ → Bool) (key : List ℕ)
      (fuel : ℕ) (ki : Info) {ku : Uri} (room : ℕ) (r : Option (Bool × Uri))
      → Honours json http (rcountmax ki.maxnlocs)
      → ki.locs ≡ []
      → 0 < ki.maxnlocs
      → ki.maxnlocs < 2 ^ 63
      → ki.maxnlocs < fuel
      → loc_key ki.loctype ≡ some key
      → ku.urilen + room + page_room + 1 < 2 ^ 64
      → Longer ku room r
      → Asked json ki.maxnlocs ki (search_with json http alloc memory fuel ki r)
  unfolding search_with
  search_with_lem http alloc memory key fuel ki {ku} room r k e h m f t w l =
      let n : length ki.locs ≡ 0 = ap (λ (x : List Loc). length x) e in
      let (c, d) = rcountmax_lem ki.maxnlocs h in
      rw (l.returns) (go l.flag l.uri l.exact l.longer n c d)
    where
      go :
          (b : Bool) (u : Uri)
          → IsExact u
          → (b ≡ true → (ku.urilen ≤ u.urilen) × (u.urilen ≤ ku.urilen + room))
          → length ki.locs ≡ 0
          → 0 < rcountmax ki.maxnlocs
          → rcountmax ki.maxnlocs ≤ 8
          → Asked json ki.maxnlocs ki (search_with json http alloc memory fuel ki (some (b, u)))
      go false u x y n c d = asked_failed json ki.maxnlocs enomem (omega arith)
      go true u x y n c d =
          let (p, q) = y refl in
          pages_lem http alloc memory (rcountmax ki.maxnlocs) u.urilen k (omega (arith, q, w)) key
            fuel 0 u ki
            (record {
              exact = x;
              same = refl;
              counts = c;
              few = omega arith;
              fits = omega arith;
              some_found = inl refl;
              sizes = omega arith;
              some_asked = h;
              enough = omega arith;
              fuel_left = omega arith;
            })
            t

  keyed : {t : ℕ} → (t ≡ loc_domainname) ⊎ (t ≡ loc_uri) → (key : List ℕ) × (loc_key t ≡ some key)
  unfolding loc_key
  keyed (inl e) = (codes "visibleUrl", rw e refl)
  keyed (inr e) = (codes "url", rw e refl)

  -- kcn_google_search from no locators, for a type of locators that has a key and where the
  -- parameters of a request leave 200 bytes of a size_t for the rest of it, with a service that
  -- gives no more results than a request asks for: whatever the system answers to each call for
  -- memory and whatever the service answers, as many rounds as locators are asked for and one more
  -- are enough, no assertion fails and no byte is stored outside the block of the URI. Locators
  -- have been added to the information, and nothing else is changed; there are no more than were
  -- asked for, and at least one where the search succeeds.
  pub google_search_lem :
      (http : List ℕ → Outcome (List ℕ)) (alloc : ℕ → ℕ → Bool) (memory : ℕ → Bool) (keys : List ℕ)
      (fuel : ℕ) (ki : Info)
      → Honours json http (rcountmax ki.maxnlocs)
      → (ki.loctype ≡ loc_domainname) ⊎ (ki.loctype ≡ loc_uri)
      → ki.locs ≡ []
      → 0 < ki.maxnlocs
      → ki.maxnlocs < 2 ^ 63
      → ki.maxnlocs < fuel
      → base_room ki keys + 200 < 2 ^ 64
      → Asked json ki.maxnlocs ki (google_search json http alloc memory fuel keys ki)
  unfolding google_search loc_key
  google_search_lem http alloc memory keys fuel ki k t e h m f w =
      let (key, q) = keyed t in
      let n : length ki.locs ≡ 0 = ap (λ (x : List Loc). length x) e in
      let c : ((ki.loctype == loc_domainname || ki.loctype == loc_uri) && ltb 0 ki.maxnlocs)
          ≡ true =
        ground arith in
      elim (new-IsExact alloc uri_base (omega arith)) [
        | inl z ↦ rw (google_search, c, z) (asked_failed json ki.maxnlocs enomem (omega (arith, n)))
        | inr (ku, z, x, y) ↦
            rw (google_search, c, z)
              (search_with_lem http alloc memory key fuel ki (base_room ki keys)
                (base_params alloc ki keys ku) k e h m f q (omega (arith, y, w))
                (base_params-Longer alloc ki keys ku x (omega (arith, y, w))))
      ]
