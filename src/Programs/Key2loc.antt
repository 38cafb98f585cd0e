-- ===== src/Programs/Key2loc.antt =====
-- key2loc/main.c: the program that searches for locators. The searches are an argument, the one of each
-- round by its number, and so are atoi(), as the bit pattern of its result in a size_t, and malloc().
use kcn.Common.{
  ℕ, zero, suc, List, [], ◌∷◌, map, Option, some, none, Bool, ◌==◌, if◌then◌else◌, Outcome, ok, bad,
}
use kcn.Common.Text.{codes, strcasecmp}
use kcn.Info.{Info, new, Loc, loc_free, db_set, country_set, userip_set}
use kcn.Msg.{loc_domainname, loc_uri}
use kcn.Registry.{Entry, exists}
use kcn.Netstat.{netstat_init}
use kcn.Google.{google_init}
use kcn.Programs.Options.{Given, Parsed, usage, aborted, parsed, options, priority_increment}

-- The variables of main() that the options set
pub record Settings : Type 0 where
  pub db : Option (List ℕ)
  pub loctype : ℕ
  pub country : Option (List ℕ)
  pub userip : Option (List ℕ)
  pub server : Option (List ℕ)
  pub repeats : ℕ
  pub number : ℕ
  pub priority : ℕ

unfoldable pub defaults : Settings
defaults = record {
  db = none;
  loctype = loc_domainname;
  country = none;
  userip = none;
  server = none;
  repeats = 1;
  number = 1;
  priority = 0;
}

-- The option `-l`
unfoldable pub loctype_option : List ℕ → Settings → Parsed Settings
loctype_option v s =
    if strcasecmp v (codes "domain")
    then parsed (record s { loctype = loc_domainname })
    else if strcasecmp v (codes "uri")
    then parsed (record s { loctype = loc_uri })
    else if strcasecmp v (codes "ip")
    then usage (some (codes "not yet supported locator type"))
    else usage (some (codes "unknown locator type"))

unfoldable pub server_option : List ℕ → Settings → Option (List ℕ) → Parsed Settings
server_option v s (some w) = usage (some (codes "multiple servers specified"))
server_option v s none = parsed (record s { server = some v })

-- The switch of main()
unfoldable pub key2loc_option : (List ℕ → ℕ) → List Entry → Given → Settings → Parsed Settings
unfolding loctype_option server_option priority_increment
key2loc_option atoi dbs g s =
    if g.option == b'c'
    then parsed (record s { country = some g.value })
    else if g.option == b'i'
    then parsed (record s { userip = some g.value })
    else if g.option == b'l'
    then loctype_option g.value s
    else if g.option == b'n'
    then parsed (record s { number = atoi g.value })
    else if g.option == b'r'
    then parsed (record s { repeats = atoi g.value })
    else if g.option == b's'
    then server_option g.value s s.server
    else if g.option == b't'
    then (if exists g.value dbs
        then parsed (record s { db = some g.value })
        else usage (some (codes "unknown database type")))
    else if g.option == b'v'
    then parsed (record s { priority = priority_increment s.priority })
    else usage none

-- How the program ends: with its usage, by err() with an errno, by a failed assertion, or with the locators
-- that it has printed.
pub data Ended : Type 0 where
  shown : Option (List ℕ) → Ended
  err : ℕ → Ended
  abort : Ended
  printed : List (List ℕ) → Ended

-- The databases that main() registers, at their addresses and with their handlers of searches.
unfoldable pub databases :
    ℕ
    → (Info → List ℕ → Option (Outcome Info))
    → ℕ
    → (Info → List ℕ → Option (Outcome Info))
    → Option (List Entry)
unfolding netstat_init google_init
databases na net ga google = elim (netstat_init na net []) [
  | none ↦ none
  | some l ↦ google_init ga google l
]

abbrev pub Search : Type 0
Search = ℕ → Info → Option (Outcome Info)

-- The loop of doit() with rounds left, the next of which has number `i`.
unfoldable pub rounds : Search → ℕ → ℕ → Info → Option (Outcome Info)
rounds search zero i ki = some (ok ki)
rounds search (suc left) i ki = elim (search i (loc_free ki)) [
  | none ↦ none
  | some o ↦ elim o [ bad e ↦ some (bad e) | ok ki' ↦ rounds search left (suc i) ki' ]
]

-- The end of doit(): the locators are printed.
unfoldable pub prints : Option (Outcome Info) → Ended
prints none = abort
prints (some (bad e)) = err e
prints (some (ok ki)) = printed (map (λ (l : Loc). l.uri) ki.locs)

-- doit() behind the structure; `size` is that of an address.
unfoldable pub search_with : Search → ℕ → Settings → Info → Ended
unfolding rounds prints
search_with search size s ki = elim (country_set (db_set ki s.db) s.country) [
  | none ↦ abort
  | some ki' ↦ prints (rounds search s.repeats 0 (userip_set size ki' s.userip))
]

-- doit(); the flag says whether malloc() gives the structure.
unfoldable pub doit : Search → Bool → ℕ → Settings → Ended
unfolding search_with
doit search memory size s = elim (new memory s.loctype s.number) [
  | none ↦ abort
  | some o ↦ elim o [ bad e ↦ err e | ok ki ↦ search_with search size s ki ]
]

-- main(), with the searches by the settings and the keywords
unfoldable pub key2loc_main :
    (Settings → List (List ℕ) → Search)
    → (List ℕ → ℕ)
    → List Entry
    → Bool
    → ℕ
    → List Given
    → List (List ℕ)
    → Ended
unfolding options key2loc_option defaults doit
key2loc_main search atoi dbs memory size gs keys =
    elim (options (key2loc_option atoi dbs) gs defaults) [
      | usage m ↦ shown m
      | aborted ↦ abort
      | parsed s ↦ elim keys [
        | [] ↦ shown (some (codes "no keywords specified"))
        | k ∷ ks ↦ doit (search s (k ∷ ks)) memory size s
      ]
    ]
