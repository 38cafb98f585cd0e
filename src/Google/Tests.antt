-- ===== src/Google/Tests.antt =====
-- Runs of lib/kcn_google.c, and the theorems at a concrete input. JSON is a data type of its own, and the
-- service has one document.
use kcn.Common.{
  ℕ, ◌+◌, ◌^◌, ◌<◌, ◌≡◌, refl, List, [], ◌∷◌, length, replicate, sym, ◌≤◌, Option, some, none, Bool,
  true, false, ltb, ◌==◌, if◌then◌else◌, ok, bad, Outcome, arith, inr,
}
use mathlib.Core.Path.{subst}
use kcn.Common.Text.{codes, c_string, isalnum, isdigit}
use kcn.Info.{Info, nlocs, loc_add, country, userip, nonempty}
use kcn.Uri
use kcn.Uri.{param_puts, puts, encputs, ensure_trailing_space, str_len, store, enc, resize}
use kcn.Google.Defs.{
  Json, search_one, google_search, results, loc_key, rcountmax, base_params, pages, page,
  take_response, startopt, result_string,
}
use kcn.Google.One.{no_more, one_more, taken, loc_of, Asked, search_one_lem}
use kcn.Google.Request.{base_room}
use kcn.Google.Pages.{google_search_lem}

-- The values of one kind of document: the root, its parts, a result and its locator.
data Doc : Type 0 where
  root : ℕ → ℕ → Doc
  status : ℕ → Doc
  part : ℕ → Doc
  array : ℕ → Doc
  result : Doc
  text : Doc

-- Of an object, the member whose name has as many letters.
member : Doc → ℕ → Option Doc
member (root s n) l = if l == 14 then some (status s) else if l == 12 then some (part n) else none
member (part n) l = some (array n)
member result l = some text
member d l = none

is_integer : Doc → Bool
is_integer (status s) = true
is_integer d = false

integer_value : Doc → ℕ
integer_value (status s) = s
integer_value d = 0

is_array : Doc → Bool
is_array (array n) = true
is_array d = false

array_size : Doc → ℕ
array_size (array n) = n
array_size d = 0

array_get : Doc → ℕ → Option Doc
array_get (array n) i = if ltb i n then some result else none
array_get d i = none

string_value : Doc → Option (List ℕ)
string_value text = some (codes "a.org")
string_value d = none

-- A document is its status and the number of its results.
loads : List ℕ → Option Doc
loads (s ∷ n ∷ l) = some (root s n)
loads l = none

abbrev json : Json
json = record {
  Value = Doc;
  loads = loads;
  object_get = λ v k. member v (length k);
  is_integer = is_integer;
  integer_value = integer_value;
  is_array = is_array;
  array_size = array_size;
  array_get = array_get;
  string_value = string_value;
}

abbrev asking : ℕ → Info
asking n = record {
  loctype = 1;
  maxnlocs = n;
  dbname = [];
  country = [];
  userip = [];
  time = 0;
  locs = [];
}

-- A service that answers every request with `n` results.
abbrev serving : ℕ → List ℕ → Outcome (List ℕ)
serving n uri = ok (200 ∷ n ∷ 0 ∷ [])

search_one_lem_example :
    search_one json (serving 3) (λ n. true) [] (asking 2)
    ≡ some (
      if nlocs (taken (asking 2) (codes "a.org" ∷ codes "a.org" ∷ codes "a.org" ∷ [])) == 0
          then bad 3
          else ok tt,
      taken (asking 2) (codes "a.org" ∷ codes "a.org" ∷ codes "a.org" ∷ []),
    )
unfolding nlocs loc_key results loads member is_integer integer_value is_array array_size array_get
    string_value c_string result_string
search_one_lem_example =
    search_one_lem json (serving 3) (λ n. true) [] (asking 2) {key = codes "url"}
      {res = 200 ∷ 3 ∷ 0 ∷ []} {arr = array 3} (codes "a.org" ∷ codes "a.org" ∷ codes "a.org" ∷ [])
      (λ n. refl) (omega arith) refl refl refl
      (one_more {v = result} refl refl
        (one_more {v = result} refl refl (one_more {v = result} refl refl no_more)))

-- Results without a page: three locators of the sixteen that are asked for, in one request.
google_search_run :
    google_search json (serving 3) (λ i n. true) (λ n. true) 17 (codes "k") (asking 16)
    ≡ some (ok tt, record (asking 16) { locs = replicate 3 (loc_of (codes "a.org")) })
unfolding google_search nlocs loc_key results loads member is_integer integer_value is_array
    array_size array_get string_value c_string Uri.new rcountmax base_params pages page
    take_response loc_add country userip nonempty param_puts puts encputs ensure_trailing_space
    str_len store enc resize isalnum isdigit startopt search_one
google_search_run = refl

-- A service that gives sixteen results where eight are asked for makes the second request fail an
-- assertion.
google_search_aborts :
    google_search json (serving 16) (λ i n. true) (λ n. true) 17 (codes "k") (asking 16) ≡ none
unfolding google_search nlocs loc_key results loads member is_integer integer_value is_array
    array_size array_get string_value c_string Uri.new rcountmax base_params pages page
    take_response loc_add country userip nonempty param_puts puts encputs ensure_trailing_space
    str_len store enc resize isalnum isdigit startopt search_one
google_search_aborts = refl

served :
    (res : List ℕ) (arr : Doc)
    → 200 ∷ 3 ∷ 0 ∷ [] ≡ res
    → results json (loads (c_string res)) ≡ ok arr
    → array_size arr ≤ 8
unfolding results loads member is_integer integer_value is_array array_size c_string
served res arr e f =
    let g : results json (loads (c_string (200 ∷ 3 ∷ 0 ∷ []))) ≡ ok arr =
      subst (λ r. results json (loads (c_string r)) ≡ ok arr) (sym e) f in
    let h : array 3 ≡ arr = cc in subst (λ a. array_size a ≤ 8) h (omega arith)

fits : base_room (asking 16) (codes "k") + 200 < 2 ^ 64
unfolding rcountmax country userip nonempty enc isalnum isdigit
fits = omega arith

google_search_lem_example :
    Asked json 16
      (asking 16)
      (google_search json (serving 3) (λ i n. true) (λ n. ltb n 2) 17 (codes "k") (asking 16))
unfolding rcountmax
google_search_lem_example =
    google_search_lem json (serving 3) (λ i n. true) (λ n. ltb n 2) (codes "k") 17 (asking 16)
      (record { few_results = λ uri res arr e f. served res arr (cc) f }) (inr refl) refl
      (omega arith) (omega arith) (omega arith) fits
