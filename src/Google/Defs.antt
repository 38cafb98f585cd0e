-- ===== src/Google/Defs.antt =====
-- The definitions of lib/kcn_google.c. The library that reads JSON and kcn_http_response_get are parameters.
-- `alloc i n` says whether call `i` of malloc() or realloc() for the URI gives a block of `n` bytes, and
-- `memory n` whether kcn_str_dup has memory for the locator that is the `n`-th, which a search asks
-- for once. Calls 0 and 1 are those of kcn_uri_new; four follow for each parameter, and the calls
-- of the page that starts at result `n` are counted from `18 + 4 * n`, so that no two have a number.
use kcn.Common.{
  ℕ, zero, suc, ◌+◌, ◌*◌, ◌/◌, ◌%◌, List, [], ◌∷◌, length, take, Option, some, none, Bool, true,
  false, not, ltb, ◌==◌, ◌&&◌, ◌||◌, if◌then◌else◌, add_size, Outcome, ok, bad, eagain, einval,
  enetdown, enomem, esrch,
}
use kcn.Common.Fallible.{E, pure}
use kcn.Common.Text.{codes, c_string}
use kcn.Info.{Info, nlocs, loc_add, country, userip}
use kcn.Msg.{loc_domainname, loc_uri}
use kcn.Registry.{Entry, Verdict, matched, register, deregister}
use kcn.Uri
use kcn.Uri.{Uri, param_puts, resize}

-- The functions of the library that reads JSON. An integer is the bit pattern of its 64 bits.
pub record Json : Type 1 where
  pub Value : Type 0
  pub loads : List ℕ → Option Value
  pub object_get : Value → List ℕ → Option Value
  pub is_integer : Value → Bool
  pub integer_value : Value → ℕ
  pub is_array : Value → Bool
  pub array_size : Value → ℕ
  pub array_get : Value → ℕ → Option Value
  pub string_value : Value → Option (List ℕ)

abbrev pub uri_base : List ℕ
uri_base = codes "http://ajax.googleapis.com/ajax/services/search/web?v=1.0"

abbrev pub rcountmax_limit : ℕ
rcountmax_limit = 9

abbrev pub http_ok : ℕ
http_ok = 200

abbrev pub http_forbidden : ℕ
http_forbidden = 403

-- jlockey
unfoldable pub loc_key : ℕ → Option (List ℕ)
loc_key t =
    if t == loc_domainname
    then some (codes "visibleUrl")
    else if t == loc_uri
    then some (codes "url")
    else none

-- kcn_google_match
unfoldable pub google_match : List ℕ → Verdict
google_match s = matched 0

module _ (json : Json) where
  open json use {
    Value, loads, object_get, is_integer, integer_value, is_array, array_size, array_get,
    string_value,
  }

  -- The array of results, behind the checks of the data.
  unfoldable pub results_array : Option Value → Outcome Value
  results_array none = bad einval
  results_array (some v) = if is_array v then ok v else bad einval

  unfoldable pub results_data : Option Value → Outcome Value
  unfolding results_array
  results_data none = bad einval
  results_data (some v) = results_array (object_get v (codes "results"))

  unfoldable pub results_status : Value → Option Value → Outcome Value
  unfolding results_data
  results_status root none = bad einval
  results_status root (some v) =
      if not (is_integer v)
      then bad einval
      else if not (integer_value v == http_ok)
      then (if integer_value v == http_forbidden then bad eagain else bad enetdown)
      else results_data (object_get root (codes "responseData"))

  -- The results of a response, or why there are none.
  unfoldable pub results : Option Value → Outcome Value
  unfolding results_status
  results none = bad einval
  results (some root) = results_status root (object_get root (codes "responseStatus"))

  unfoldable pub result_string : Option Value → Option (List ℕ)
  result_string none = none
  result_string (some v) = string_value v

  -- The body of the loop over the results, with the rounds after it.
  unfoldable pub take_result : (ℕ → Bool) → Option (List ℕ) → E Info (Unit {0}) → E Info (Unit {0})
  take_result memory none rest ki = some (bad einval, ki)
  take_result memory (some s) rest ki = elim (loc_add (memory (nlocs ki)) ki s (length s) 0) [
    | none ↦ none
    | some o ↦ elim o [
      | bad e ↦ some (bad e, ki)
      | ok ki' ↦ if nlocs ki' == ki'.maxnlocs then some (ok tt, ki') else rest ki'
    ]
  ]

  -- json_array_foreach from index `i` on, with `left` elements left
  unfoldable pub results_loop : (ℕ → Bool) → List ℕ → Value → ℕ → ℕ → E Info (Unit {0})
  unfolding take_result result_string
  results_loop memory key arr zero i = pure tt
  results_loop memory key arr (suc left) i = elim (array_get arr i) [
    | none ↦ pure tt
    | some v ↦
        take_result memory (result_string (object_get v key))
          (results_loop memory key arr left (suc i))
  ]

  unfoldable pub take_results : (ℕ → Bool) → List ℕ → Outcome Value → E Info (Unit {0})
  unfolding results_loop
  take_results memory key (bad e) ki = some (bad e, ki)
  take_results memory key (ok arr) ki = elim (results_loop memory key arr (array_size arr) 0 ki) [
    | none ↦ none
    | some (o, ki') ↦ elim o [
      | bad e ↦ some (bad e, ki')
      | ok u ↦ if nlocs ki' == 0 then some (bad esrch, ki') else some (ok tt, ki')
    ]
  ]

  unfoldable pub take_response : (ℕ → Bool) → List ℕ → Outcome (List ℕ) → E Info (Unit {0})
  unfolding take_results results c_string
  take_response memory key (bad e) ki = some (bad e, ki)
  take_response memory key (ok res) ki = take_results memory key (results (loads (c_string res))) ki

  -- kcn_google_search_one
  unfoldable pub search_one : (List ℕ → Outcome (List ℕ)) → (ℕ → Bool) → List ℕ → E Info (Unit {0})
  unfolding take_response loc_key
  search_one http memory uri ki =
      if ltb (nlocs ki) ki.maxnlocs
      then (elim (loc_key ki.loctype) [
        | none ↦ none
        | some key ↦ take_response memory key (http uri) ki
      ])
      else none

-- How many results a request asks for.
unfoldable pub rcountmax : ℕ → ℕ
rcountmax maxnlocs = if ltb maxnlocs rcountmax_limit then maxnlocs else 8

-- Two parameters of an URI, one behind the other.
unfoldable pub and_param :
    (ℕ → ℕ → Bool) → List ℕ → Option (List ℕ) → Option (Bool × Uri) → Option (Bool × Uri)
and_param alloc param val none = none
and_param alloc param val (some (b, ku)) =
    if b then param_puts alloc param val ku else some (false, ku)

-- The parameters that each request of a search has.
unfoldable pub base_params : (ℕ → ℕ → Bool) → Info → List ℕ → Uri → Option (Bool × Uri)
unfolding and_param rcountmax
base_params alloc ki keys ku =
    and_param (λ i. alloc (14 + i)) (codes "q") (some keys)
      (and_param (λ i. alloc (10 + i)) (codes "userip") (userip ki)
        (and_param (λ i. alloc (6 + i)) (codes "gl") (country ki)
          (param_puts (λ i. alloc (2 + i)) (codes "rsz")
            (some ((b'0' + rcountmax ki.maxnlocs) ∷ [])) ku)))

-- snprintf() of `%zu`: the digits, of which the array has room for 20. A size_t has no more.
unfoldable pub digits : ℕ → ℕ → List ℕ → List ℕ
digits zero n acc = acc
digits (suc fuel) n acc =
    let more = digits fuel (n / 10) ((b'0' + n % 10) ∷ acc) in
    if ltb n 10 then (b'0' + n) ∷ acc else more

-- KCN_INFO_NLOCSTRLEN
abbrev pub nlocstrlen : ℕ
nlocstrlen = 21

unfoldable pub startopt : ℕ → List ℕ
unfolding digits
startopt n = take 20 (digits 20 n [])

-- The URI of the page that starts at a result.
unfoldable pub page_uri : (ℕ → ℕ → Bool) → ℕ → Uri → Option (Bool × Uri)
unfolding startopt
page_uri alloc n ku =
    if ltb 0 n
    then param_puts (λ i. alloc (18 + 4 * n + i)) (codes "start") (some (startopt n)) ku
    else some (true, ku)

-- Behind a page that failed.
unfoldable pub page_failed : ℕ → E Info (Unit {0})
page_failed e ki = if not (e == esrch) || nlocs ki == 0 then some (bad e, ki) else some (ok tt, ki)

-- Behind a page that did not: the URI gets its old length, and a page that is not full is the last.
unfoldable pub page_taken : ℕ → ℕ → Uri → (Uri → E Info (Unit {0})) → E Info (Unit {0})
page_taken count uriolen ku next ki = elim (resize uriolen ku) [
  | none ↦ none
  | some (u, ku') ↦ if not (nlocs ki % count == 0) then some (ok tt, ki) else next ku' ki
]

module _ (json : Json) where
  -- The request of a page, where there is memory for its URI, with the rounds after it.
  unfoldable pub page :
      (List ℕ → Outcome (List ℕ))
      → (ℕ → Bool)
      → ℕ
      → ℕ
      → (Uri → E Info (Unit {0}))
      → Bool
      → Uri
      → E Info (Unit {0})
  unfolding page_failed page_taken
  page http memory count uriolen next false ku ki = some (bad enomem, ki)
  page http memory count uriolen next true ku ki = elim (search_one json http memory ku.uri ki) [
    | none ↦ none
    | some (o, ki') ↦ elim o [
      | bad e ↦ page_failed e ki'
      | ok u ↦ page_taken count uriolen ku next ki'
    ]
  ]

  -- The loop of kcn_google_search. `none` where the fuel ends or an assertion fails.
  unfoldable pub pages :
      (List ℕ → Outcome (List ℕ))
      → (ℕ → ℕ → Bool)
      → (ℕ → Bool)
      → ℕ
      → ℕ
      → ℕ
      → ℕ
      → Uri
      → E Info (Unit {0})
  unfolding page_uri page
  pages http alloc memory count uriolen zero n ku ki = none
  pages http alloc memory count uriolen (suc fuel) n ku ki = elim (ltb n ki.maxnlocs) [
    | false ↦ some (ok tt, ki)
    | true ↦ elim (page_uri alloc n ku) [
      | none ↦ none
      | some (b, ku') ↦
          page http memory count uriolen
            (pages http alloc memory count uriolen fuel (add_size n count)) b ku' ki
    ]
  ]

  unfoldable pub search_with :
      (List ℕ → Outcome (List ℕ))
      → (ℕ → ℕ → Bool)
      → (ℕ → Bool)
      → ℕ
      → Info
      → Option (Bool × Uri)
      → Option (Outcome (Unit {0}) × Info)
  unfolding pages
  search_with http alloc memory fuel ki none = none
  search_with http alloc memory fuel ki (some (b, ku)) =
      if b
      then pages http alloc memory (rcountmax ki.maxnlocs) ku.urilen fuel 0 ku ki
      else some (bad enomem, ki)

  -- kcn_google_search
  unfoldable pub google_search :
      (List ℕ → Outcome (List ℕ)) → (ℕ → ℕ → Bool) → (ℕ → Bool) → ℕ → List ℕ → E Info (Unit {0})
  unfolding search_with base_params loc_key
  google_search http alloc memory fuel keys ki =
      if (ki.loctype == loc_domainname || ki.loctype == loc_uri) && ltb 0 ki.maxnlocs
      then (elim (Uri.new alloc uri_base) [
        | none ↦ some (bad enomem, ki)
        | some ku ↦ search_with http alloc memory fuel ki (base_params alloc ki keys ku)
      ])
      else none

-- What kd_search of kcn_google, which is kcn_google_search, makes of the information.
unfoldable pub google_handler :
    (json : Json)
    → (List ℕ → Outcome (List ℕ))
    → (ℕ → ℕ → Bool)
    → (ℕ → Bool)
    → ℕ
    → Info
    → List ℕ
    → Option (Outcome Info)
unfolding google_search
google_handler json http alloc memory fuel ki keys =
    elim (google_search json http alloc memory fuel keys ki) [
      | none ↦ none
      | some (o, ki') ↦ some (elim o [ ok u ↦ ok ki' | bad e ↦ bad e ])
    ]

-- kcn_google, at its address and with its handler of searches
unfoldable pub google : ℕ → (Info → List ℕ → Option (Outcome Info)) → Entry
unfolding google_match
google addr search = record {
  addr = addr;
  prio = 0;
  name = codes "google";
  desc = codes "Google Web search";
  match = google_match;
  search = search;
}

-- kcn_google_init and kcn_google_finish
unfoldable pub google_init :
    ℕ → (Info → List ℕ → Option (Outcome Info)) → List Entry → Option (List Entry)
unfolding google
google_init addr search l = register (google addr search) l

unfoldable pub google_finish : ℕ → (Info → List ℕ → Option (Outcome Info)) → List Entry → List Entry
unfolding google
google_finish addr search l = deregister (google addr search) l
