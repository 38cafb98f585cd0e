-- ===== src/Netstat/Tests.antt =====
-- Runs of lib/kcn_netstat.c, and the theorem at a concrete input.
use kcn.Common.{ℕ, ◌≡◌, refl, List, [], ◌∷◌, some, true, Outcome, ok, arith}
use kcn.Common.Text.{codes, tolower, isblank, strcasecmp}
use kcn.Eq.{Eq, op_ge, type_ntoa, operator_aton}
use kcn.Info.{Info}
use kcn.Keys.{key_concat, key_lengths}
use kcn.Msg.{Query}
use kcn.Registry.{matched, unmatched}
use kcn.Str.Number.{decimal}
use kcn.Netstat.Defs.{starts_with, strcasestr, match_score, netstat_match, netstat_search}
use kcn.Netstat.Compile.{condition, netstat_search-key_concat}

netstat_match_run : netstat_match (codes "Max CPU load") ≡ matched 3
unfolding netstat_match match_score strcasestr starts_with tolower
netstat_match_run = refl

netstat_match_none : netstat_match (codes "Tokyo") ≡ unmatched
unfolding netstat_match match_score strcasestr starts_with tolower
netstat_match_none = refl

abbrev old : Eq
old = record { type = 9; op = 9; val = 9; start = 9; end = 9 }

-- A client that notes the value of the query in the time of the search.
abbrev note : Query → Info → Outcome Info
note q ki = ok (record ki { time = q.eq.val })

abbrev search_info : Info
search_info = record {
  loctype = 1;
  maxnlocs = 2;
  dbname = [];
  country = [];
  userip = [];
  time = 0;
  locs = [];
}

netstat_search-key_concat_example :
    (keys : List ℕ) × (key_concat true (codes "cpu" ∷ codes "ge" ∷ codes "40" ∷ [])
      ≡ some (some keys))
    × (netstat_search (λ n. true) (ok 1000) old note search_info keys
        ≡ some (
            note
              (record {
                loctype = 1;
                maxcount = 2;
                eq = condition 2 op_ge (decimal (codes "40")) 1000;
              })
              search_info))
unfolding type_ntoa operator_aton strcasecmp tolower isblank key_lengths decimal
netstat_search-key_concat_example =
    netstat_search-key_concat 2 op_ge (codes "cpu") (codes "ge") b'4' (b'0' ∷ []) 1000 old note
      search_info (omega arith) (omega arith) refl (refl, (refl, tt)) refl
      ((omega arith, omega arith), ((omega arith, omega arith), tt)) (omega arith) (omega arith)
