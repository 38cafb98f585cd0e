-- ===== src/Programs/Resolution.antt =====
-- doit() of key2loc/main.c over any searches.
use kcn.Common.{
  ℕ, zero, suc, ◌+◌, ◌-◌, ◌≤◌, ◌<◌, ◌≡◌, refl, ap, List, [], ◌∷◌, length, take, map, Option, some,
  none, true, false, ◌⊎◌, inl, inr, arith, Outcome, ok, bad, enomem, lt→ltb, length-take,
}
use mathlib.Core.Path.{subst}
use kcn.Common.Text.{strlcpy}
use kcn.Info.{Info, new, Loc, loc_free, db_set, db_unset, country_set, userip_set}
use kcn.Programs.Key2loc.{Settings, Ended, err, printed, Search, rounds, prints, search_with, doit}

-- The string of an option in an array with room for `n` bytes.
abbrev pub given : ℕ → Option (List ℕ) → List ℕ
given n none = []
given n (some l) = take n l

-- What each round asks for, without a locator.
abbrev pub question : ℕ → Settings → Info
question size s = record {
  loctype = s.loctype;
  maxnlocs = s.number;
  dbname = given 6 s.db;
  country = given 2 s.country;
  userip = given (size - 1) s.userip;
  time = 0;
  locs = [];
}

-- What is asked of the searches: each returns, and one that succeeds has found from one to `n` locators and
-- changed nothing else.
pub record IsSearch (n : ℕ) (q : Info) (search : Search) : Type 0 where
  pub returns :
      (i : ℕ)
      → (o : Outcome Info) × (search i q ≡ some o)
        × ((k : Info) → o ≡ ok k → (loc_free k ≡ q) × (0 < length k.locs) × (length k.locs ≤ n))

-- The search of a round answers the question with some locators.
abbrev Found : ℕ → Info → Search → ℕ → Info → Type 0
Found n q search i k = (search i q ≡ some (ok k)) × (0 < length k.locs) × (length k.locs ≤ n)

-- How doit() ends with rounds up to the one with number `last`: by err() with the reason of a search that has
-- failed, or it prints what the last search has found, from one to `n` locators.
abbrev pub Resolves : ℕ → Info → Search → ℕ → Ended → Type 0
Resolves n q search last e =
    ((x : ℕ) × (i : ℕ) × (e ≡ err x) × (i ≤ last) × (search i q ≡ some (bad x)))
    ⊎ ((k : Info) × (e ≡ printed (map (λ (l : Loc). l.uri) k.locs)) × Found n q search last k)

module _ (n : ℕ) (q : Info) (search : Search) (h : IsSearch n q search) where
  -- How rounds of searches end: one has failed, or the last search has succeeded.
  abbrev RoundsEnd : ℕ → Option (Outcome Info) → Type 0
  RoundsEnd last r =
      ((x : ℕ) × (j : ℕ) × (r ≡ some (bad x)) × (j ≤ last) × (search j q ≡ some (bad x)))
      ⊎ ((k : Info) × (r ≡ some (ok k)) × Found n q search last k)

  -- A round, with what the rounds after it do.
  round_lem :
      (left i last : ℕ) (ki : Info) (o : Outcome Info)
      → i ≤ last
      → loc_free ki ≡ q
      → search i q ≡ some o
      → ((k : Info) → o ≡ ok k → RoundsEnd last (rounds search left (suc i) k))
      → RoundsEnd last (rounds search (suc left) i ki)
  unfolding rounds
  round_lem left i last ki (bad x) l a e rest = inl (x, i, rw (rounds, a, e) refl, l, e)
  round_lem left i last ki (ok k) l a e rest = rw (rounds, a, e) (rest k refl)

  rounds_lem :
      (left i last : ℕ) (ki : Info)
      → i + left ≡ last
      → loc_free ki ≡ q
      → RoundsEnd last (rounds search (suc left) i ki)
  unfolding rounds
  rounds_lem zero i last ki l a =
      let (o, e, f) = h.returns i in
      round_lem zero i last ki o (omega (arith, l)) a e (λ k z. inr (
        k,
        refl,
        (
          subst (λ j. search j q ≡ some (ok k)) (omega (arith, l))
              (subst (λ r. search i q ≡ some r) z e),
          (f k z).1,
          (f k z).2,
        ),
      ))
  rounds_lem (suc left) i last ki l a =
      let (o, e, f) = h.returns i in
      round_lem (suc left) i last ki o (omega (arith, l)) a e
        (λ k z. rounds_lem left (suc i) last k (omega (arith, l)) (f k z).0)

  rounds-Resolves :
      (last : ℕ) (ki : Info)
      → loc_free ki ≡ q
      → Resolves n q search last (prints (rounds search (suc last) 0 ki))
  unfolding prints
  rounds-Resolves last ki a = elim (rounds_lem last 0 last ki (omega arith) a) [
    | inl (x, j, e, l, f) ↦ inl (x, j, rw (e) refl, l, f)
    | inr (k, e, f) ↦ inr (k, rw (e) refl, f)
  ]

-- A country that can be set: none, or one with a letter at least.
abbrev pub HasLetter : Option (List ℕ) → Type 0
HasLetter none = Unit
HasLetter (some []) = ⊥
HasLetter (some (c ∷ l)) = Unit

-- kcn_info_new
abbrev fresh : ℕ → ℕ → Info
fresh t n = record {
  loctype = t;
  maxnlocs = n;
  dbname = [];
  country = [];
  userip = [];
  time = 0;
  locs = [];
}

asked_db :
    (ki : Info) (d : Option (List ℕ))
    → ki.dbname ≡ []
    → db_set ki d ≡ record ki { dbname = given 6 d }
unfolding db_set db_unset strlcpy
asked_db ki none h = refl
asked_db ki (some d) h = refl

asked_country :
    (ki : Info) (c : Option (List ℕ))
    → HasLetter c
    → ki.country ≡ []
    → country_set ki c ≡ some (record ki { country = given 2 c })
unfolding country_set
asked_country ki none h e = ap (λ l. some (record ki { country = l })) e
asked_country ki (some []) h e = absurd h
asked_country ki (some (c ∷ l)) h e = refl

asked_userip :
    (size : ℕ) (ki : Info) (u : Option (List ℕ))
    → ki.userip ≡ []
    → userip_set size ki u ≡ record ki { userip = given (size - 1) u }
unfolding userip_set strlcpy
asked_userip size ki none h = ap (λ l. record ki { userip = l }) h
asked_userip size ki (some u) h = refl

-- doit() of key2loc where there is memory for the information, for one locator or more, one round or more and no
-- country without a letter, over searches that return and that find from one to as many locators as
-- are asked for where they succeed.
pub doit_lem :
    (search : Search) (size last : ℕ) (s : Settings)
    → IsSearch s.number (question size s) search
    → s.repeats ≡ suc last
    → 0 < s.number
    → HasLetter s.country
    → Resolves s.number (question size s) search last (doit search true size s)
unfolding doit search_with new
doit_lem search size last s h e k c =
    let ki = record (fresh s.loctype s.number) { dbname = given 6 s.db } in
    let k1 = record ki { country = given 2 s.country } in
    rw
      (
        doit,
        new,
        lt→ltb 0 s.number k,
        search_with,
        asked_db (fresh s.loctype s.number) s.db refl,
        asked_country ki s.country c refl,
        asked_userip size k1 s.userip refl,
        e,
      )
      (rounds-Resolves s.number (question size s) search h last (question size s)
        (unfold loc_free in refl))

pub given_le : (n : ℕ) (o : Option (List ℕ)) → length (given n o) ≤ n
given_le n none = omega arith
given_le n (some l) = omega (arith, length-take n l)

pub doit_no_memory :
    (search : Search) (size : ℕ) (s : Settings)
    → 0 < s.number
    → doit search false size s ≡ err enomem
unfolding doit new
doit_no_memory search size s k = rw (doit, new, lt→ltb 0 s.number k) refl
