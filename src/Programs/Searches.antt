-- ===== src/Programs/Searches.antt =====
-- The searches of key2loc/main.c that go to the database of lib/kcn_google.c.
use kcn.Registry
use kcn.Common.{
  ℕ, suc, ◌+◌, ◌-◌, ◌*◌, ◌≤◌, ◌<◌, ◌^◌, ◌≡◌, refl, sym, ap, ◌∙◌, List, [], ◌∷◌, length, Option,
  some, none, Bool, true, false, Bool-cases, ◌==◌, if◌then◌else◌, ◌⊎◌, inl, inr, arith, Outcome, ok,
  bad, enomem, length-append,
}
use mathlib.Core.Path.{subst}
use kcn.Common.Text.{codes, strcasecmp}
use kcn.Info.{Info, loc_free, db, nonempty}
use kcn.Registry.{Entry, register, select, search_in, lookup}
use kcn.Keys.{key_concat, key_lengths, searchv, search_keys}
use kcn.Keys.RoundTrip.{joined, tail_of, length-tail_of, key_concat_lem}
use kcn.Netstat.{netstat, netstat_init}
use kcn.Google.{Json, google, google_init, google_handler, rcountmax}
use kcn.Google.One.{Grown, Honours, with_locs}
use kcn.Google.Request.{base_room, base_room_le}
use kcn.Google.Pages.{google_search_lem}
use kcn.Msg.{loc_domainname, loc_uri}
use kcn.Programs.Key2loc.{Settings, err, Search, doit, databases}
use kcn.Programs.Resolution.{
  given, given_le, question, IsSearch, Resolves, HasLetter, doit_lem, doit_no_memory,
}

handled :
    (ki k : Info) (o : Outcome (Unit {0}))
    → ki.locs ≡ []
    → Grown ki.maxnlocs ki k
    → (o ≡ ok tt → 0 < length k.locs)
    → (k' : Info) → (elim o as (λ x. Outcome Info) [ ok u ↦ ok k | bad e ↦ bad e ]) ≡ ok k'
    → (loc_free k' ≡ loc_free ki) × (0 < length k'.locs) × (length k'.locs ≤ ki.maxnlocs)
unfolding loc_free
handled ki k (bad x) z g f k' e = absurd (cc)
handled ki k (ok tt) z g f k' e =
    let same : k ≡ k' = cc in
    let b : k' ≡ with_locs g.new ki = sym same ∙ g.behind in
    let n : length k'.locs ≡ length ki.locs + length g.new =
      ap (λ (x : Info). length x.locs) b ∙ length-append ki.locs g.new in
    (
      ap (λ (x : Info). record x { locs = [] }) b,
      subst (λ (x : Info). 0 < length x.locs) same (f refl),
      omega (arith, n, g.fits),
    )

module _ (json : Json) (http : List ℕ → Outcome (List ℕ)) (alloc : ℕ → ℕ → Bool) (memory : ℕ → Bool)
    (fuel : ℕ) where
  google_handler_lem :
      (ki : Info) (keys : List ℕ)
      → Honours json http (rcountmax ki.maxnlocs)
      → (ki.loctype ≡ loc_domainname) ⊎ (ki.loctype ≡ loc_uri)
      → ki.locs ≡ []
      → 0 < ki.maxnlocs
      → ki.maxnlocs < 2 ^ 63
      → ki.maxnlocs < fuel
      → base_room ki keys + 200 < 2 ^ 64
      → (o : Outcome Info) × (google_handler json http alloc memory fuel ki keys ≡ some o)
        × ((k : Info)
            → o ≡ ok k
            → (loc_free k ≡ loc_free ki) × (0 < length k.locs) × (length k.locs ≤ ki.maxnlocs))
  unfolding google_handler
  google_handler_lem ki keys h t z p q r w =
      let a = google_search_lem json http alloc memory keys fuel ki h t z p q r w in
      (
        elim a.outcome [ ok u ↦ ok a.info | bad e ↦ bad e ],
        rw (google_handler, a.returns) refl,
        handled ki a.info a.outcome z a.grown a.found,
      )

databases_lem :
    (na ga : ℕ) (net goog : Info → List ℕ → Option (Outcome Info))
    → (na == ga) ≡ false
    → databases na net ga goog ≡ some (netstat na net ∷ google ga goog ∷ [])
unfolding databases netstat_init google_init register netstat google
databases_lem na ga net goog h = rw h refl

joined_keys :
    (l : List Entry) (ki : Info) (r : Option (Option (List ℕ))) {k : List ℕ}
    → r ≡ some (some k)
    → (elim r as (λ x. Option (Outcome Info)) [
      | none ↦ none
      | some o ↦ elim o [ none ↦ some (bad enomem) | some k ↦ search_keys l ki k ]
    ])
      ≡ search_keys l ki k
joined_keys l ki r e = rw e refl

-- Under the name of the database the search is that of lib/kcn_google.c, for the keys that are joined.
searchv_lem :
    (block : Bool) (na ga : ℕ) (net goog : Info → List ℕ → Option (Outcome Info)) (ki : Info)
    (key : List ℕ) (keys : List (List ℕ))
    → ki.dbname ≡ codes "google"
    → length (key ∷ keys) + key_lengths (key ∷ keys) < 2 ^ 64
    → searchv block (netstat na net ∷ google ga goog ∷ []) ki (key ∷ keys)
      ≡ (if block then goog ki (joined key keys) else some (bad enomem))
unfolding searchv search_keys Registry.search db nonempty select lookup search_in strcasecmp netstat
    google
searchv_lem false na ga net goog ki key keys e h = refl
searchv_lem true na ga net goog ki key keys e h =
    joined_keys (netstat na net ∷ google ga goog ∷ []) ki (key_concat true (key ∷ keys))
      ((key_concat_lem key keys h).1)
    ∙ rw e refl

module _ (json : Json) (http : ℕ → List ℕ → Outcome (List ℕ)) (alloc : ℕ → ℕ → ℕ → Bool)
    (memory : ℕ → ℕ → Bool) (block : ℕ → Bool) (fuel na ga : ℕ)
    (net : ℕ → Info → List ℕ → Option (Outcome Info)) where
  -- kcn_searchv in each round over the databases that main() registers. The answers of the system, of the
  -- service and of the other database are those of the round.
  abbrev pub round_search : List (List ℕ) → Search
  round_search keys i ki =
      elim (databases na (net i) ga (google_handler json (http i) (alloc i) (memory i) fuel)) [
        | none ↦ none
        | some l ↦ searchv (block i) l ki keys
      ]

  -- The search of a round for `-t google`, where the encoded request fits into a size_t.
  round_search-IsSearch :
      (size : ℕ) (key : List ℕ) (keys : List (List ℕ)) (s : Settings)
      → ((i : ℕ) → Honours json (http i) (rcountmax s.number))
      → (na == ga) ≡ false
      → s.db ≡ some (codes "google")
      → (s.loctype ≡ loc_domainname) ⊎ (s.loctype ≡ loc_uri)
      → 0 < s.number
      → s.number < 2 ^ 63
      → s.number < fuel
      → 3 * (length (key ∷ keys) + key_lengths (key ∷ keys)) + 3 * size + 300 < 2 ^ 64
      → IsSearch s.number (question size s) (round_search (key ∷ keys))
  unfolding key_lengths loc_free
  round_search-IsSearch size key keys s h x d t p q r w = record { returns = returned }
    where
      returned :
          (i : ℕ)
          → (o : Outcome Info) × (round_search (key ∷ keys) i (question size s) ≡ some o)
            × ((k : Info)
                → o ≡ ok k
                → (loc_free k ≡ question size s) × (0 < length k.locs) × (length k.locs ≤ s.number))
      returned i =
          let ki = question size s in
          let goog = google_handler json (http i) (alloc i) (memory i) fuel in
          let n : ki.dbname ≡ codes "google" = ap (λ o. given 6 o) d in
          let c : length ki.country ≤ 2 = given_le 2 s.country in
          let u : length ki.userip ≤ size - 1 = given_le (size - 1) s.userip in
          let j : length (joined key keys) ≡ length key + (length keys + key_lengths keys) =
            length-append key (tail_of keys) ∙ ap (λ m. length key + m) (length-tail_of keys) in
          let b = base_room_le ki (joined key keys) in
          let found =
            google_handler_lem json (http i) (alloc i) (memory i) fuel ki (joined key keys) (h i) t
              refl p q r (omega (arith, b, c, u, j, w)) in
          let l = databases_lem na ga (net i) goog x in
          elim (Bool-cases (block i)) [
            | inr e ↦ (
              bad enomem,
              rw (round_search, l, e)
                  (searchv_lem false na ga (net i) goog ki key keys n (omega (arith, w))),
              λ k z. absurd (cc),
            )
            | inl e ↦
                let (o, f, g) = found in
                (
                  o,
                  rw (round_search, l, e)
                      (searchv_lem true na ga (net i) goog ki key keys n (omega (arith, w)) ∙ f),
                  g,
                )
          ]

  -- doit() of key2loc as main() calls it for `-t google`, with kcn_searchv in each round over the
  -- databases that main() registers: for one keyword or more, one locator or more of a type that
  -- has a key, one round or more and no country without a letter, where three times the sizes of
  -- the joined keywords and of an address leave 300 bytes of a size_t, with a service that gives
  -- no more results than a request asks for. Whatever the system answers in each round to each
  -- call for memory, and whatever the service answers, no assertion fails and the requests end.
  -- Without memory for the information it ends by err() with ENOMEM. Otherwise it ends by err()
  -- with the reason of a round's search that has failed, or it prints what the search of the last
  -- round has found: from one to as many locators as were asked for. Each search that this names
  -- was for the question of the options, without a locator of an earlier round.
  pub doit-round_search :
      (size last : ℕ) (key : List ℕ) (keys : List (List ℕ)) (s : Settings)
      → ((i : ℕ) → Honours json (http i) (rcountmax s.number))
      → (na == ga) ≡ false
      → s.db ≡ some (codes "google")
      → (s.loctype ≡ loc_domainname) ⊎ (s.loctype ≡ loc_uri)
      → s.repeats ≡ suc last
      → 0 < s.number
      → s.number < 2 ^ 63
      → s.number < fuel
      → HasLetter s.country
      → 3 * (length (key ∷ keys) + key_lengths (key ∷ keys)) + 3 * size + 300 < 2 ^ 64
      → (doit (round_search (key ∷ keys)) false size s ≡ err enomem)
        × Resolves s.number
            (question size s)
            (round_search (key ∷ keys))
            last
            (doit (round_search (key ∷ keys)) true size s)
  doit-round_search size last key keys s h x d t e p q r c w = (
    doit_no_memory (round_search (key ∷ keys)) size s p,
    doit_lem (round_search (key ∷ keys)) size last s
        (round_search-IsSearch size key keys s h x d t p q r w) e p c,
  )
