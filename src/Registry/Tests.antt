-- ===== src/Registry/Tests.antt =====
-- Runs of lib/kcn_db.c, and the theorems at concrete inputs.
use kcn.Common.{ℕ, ◌≡◌, refl, List, [], ◌∷◌, some, none, ok, bad, einval, arith}
use kcn.Common.Text.{codes, strcasecmp}
use kcn.Registry.Defs.{Entry, Verdict, matched, malformed, register, deregister, match_loop, lookup}
use kcn.Registry.Order.{IsOrdered, register-IsOrdered}
use kcn.Registry.Match.{MatchResult, match_loop-MatchResult}

abbrev entry : ℕ → ℕ → List ℕ → Verdict → Entry
entry a p n v = record {
  addr = a;
  prio = p;
  name = n;
  desc = [];
  match = λ keys. v;
  search = λ ki keys. some (ok ki);
}

abbrev net : Entry
net = entry 1 100 (codes "net") (matched 10)

abbrev google : Entry
google = entry 2 0 (codes "google") (matched 1)

abbrev web : Entry
web = entry 3 50 (codes "web") (matched 10)

lookup_run : lookup (codes "Google") (net ∷ google ∷ []) ≡ ok google
unfolding lookup strcasecmp
lookup_run = refl

match_first : match_loop (codes "cpu < 3") none (google ∷ web ∷ net ∷ []) ≡ ok web
unfolding match_loop
match_first = refl

match_malformed : match_loop [] none (google ∷ entry 4 0 [] malformed ∷ []) ≡ bad einval
unfolding match_loop
match_malformed = refl

register-IsOrdered_example :
    (r : List Entry) × (register web (net ∷ google ∷ []) ≡ some r)
    × IsOrdered r
    × (deregister web r ≡ (net ∷ google ∷ []))
register-IsOrdered_example =
    register-IsOrdered web (net ∷ google ∷ []) (ground arith, (ground arith, tt))
      ((omega arith, tt), (tt, tt))

match_loop-MatchResult_example :
    MatchResult
      (codes "cpu < 3")
      (google ∷ web ∷ net ∷ [])
      (match_loop (codes "cpu < 3") none (google ∷ web ∷ net ∷ []))
match_loop-MatchResult_example = match_loop-MatchResult (codes "cpu < 3") (google ∷ web ∷ net ∷ [])
