-- ===== src/Info/Defs.antt =====
-- The definitions of lib/kcn_info.c. A string is the list of its bytes without the NUL; malloc() and
-- strdup() answer as a flag says. The array of locators is the list of the ones in use.
use mathlib.Core.Option
use kcn.Common.{
  ℕ, List, [], ◌∷◌, ◌++◌, length, get_elem?, take, Option, some, none, Bool, true, false, ltb, leb,
  if◌then◌else◌, Outcome, ok, bad, enomem,
}
use kcn.Common.Text.{strlcpy}

pub record Loc : Type 0 where
  pub uri : List ℕ
  pub score : ℕ

pub record Info : Type 0 where
  pub loctype : ℕ
  pub maxnlocs : ℕ
  pub dbname : List ℕ
  pub country : List ℕ
  pub userip : List ℕ
  pub time : ℕ
  pub locs : List Loc

-- KCN_INFO_DBNAMESTRLEN, the size of "google"
abbrev pub dbname_siz : ℕ
dbname_siz = 7

-- `none` is a failed assertion.
unfoldable pub new : Bool → ℕ → ℕ → Option (Outcome Info)
new false t n = if ltb 0 n then some (bad enomem) else none
new true t n =
    if ltb 0 n
    then some (
        ok (record {
          loctype = t;
          maxnlocs = n;
          dbname = [];
          country = [];
          userip = [];
          time = 0;
          locs = [];
        }))
    else none

unfoldable pub db_unset : Info → Info
db_unset ki = record ki { dbname = [] }

unfoldable pub db_set : Info → Option (List ℕ) → Info
unfolding db_unset strlcpy
db_set ki none = db_unset ki
db_set ki (some name) = record (db_unset ki) { dbname = strlcpy name dbname_siz }

-- A string that is not empty, or NULL.
unfoldable pub nonempty : List ℕ → Option (List ℕ)
nonempty [] = none
nonempty (c ∷ s) = some (c ∷ s)

unfoldable pub db : Info → Option (List ℕ)
unfolding nonempty
db ki = nonempty ki.dbname

-- `none` is a failed assertion.
unfoldable pub country_set : Info → Option (List ℕ) → Option Info
country_set ki none = some ki
country_set ki (some []) = none
country_set ki (some (c ∷ s)) = some (record ki { country = c ∷ take 1 s })

unfoldable pub country : Info → Option (List ℕ)
unfolding nonempty
country ki = nonempty ki.country

-- The size of an address is a constant of the system, 16 or 46.
unfoldable pub userip_set : ℕ → Info → Option (List ℕ) → Info
unfolding strlcpy
userip_set size ki none = ki
userip_set size ki (some ip) = record ki { userip = strlcpy ip size }

unfoldable pub userip : Info → Option (List ℕ)
unfolding nonempty
userip ki = nonempty ki.userip

unfoldable pub nlocs : Info → ℕ
nlocs ki = length ki.locs

unfoldable pub loc : Info → ℕ → Option (List ℕ)
unfolding nlocs
loc ki i = if leb (nlocs ki) i then none else Option.map (λ l. l.uri) (get_elem? ki.locs i)

-- `none` is a failed assertion; the flag says whether malloc() in kcn_str_dup succeeds.
unfoldable pub loc_add : Bool → Info → List ℕ → ℕ → ℕ → Option (Outcome Info)
unfolding nlocs
loc_add false ki s len score = if ltb (nlocs ki) ki.maxnlocs then some (bad enomem) else none
loc_add true ki s len score =
    if ltb (nlocs ki) ki.maxnlocs
    then some
        (ok (record ki { locs = ki.locs ++ (record { uri = take len s; score = score } ∷ []) }))
    else none

unfoldable pub loc_free : Info → Info
loc_free ki = record ki { locs = [] }
