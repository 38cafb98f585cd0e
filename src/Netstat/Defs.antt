-- ===== src/Netstat/Defs.antt =====
-- The definitions of lib/kcn_netstat.c. The answer of time() and kcn_client_search are arguments.
use kcn.Common.{
  ℕ, suc, ◌+◌, ◌-◌, ◌^◌, ◌%◌, List, [], ◌∷◌, Option, some, none, Bool, true, false, ◌==◌, ◌&&◌,
  ◌||◌, if◌then◌else◌, Outcome, ok, bad, einval,
}
use kcn.Common.Text.{codes, tolower}
use kcn.Eq.{Eq, type_aton, operator_aton, val_aton, time_now}
use kcn.Eq.Words.{and_then}
use kcn.Info.{Info}
use kcn.Keys.{key_split}
use kcn.Msg.{Query}
use kcn.Registry.{Entry, Verdict, matched, unmatched, register, deregister}

-- strcasestr() != NULL
unfoldable pub starts_with : List ℕ → List ℕ → Bool
unfolding tolower
starts_with s [] = true
starts_with [] (w ∷ ws) = false
starts_with (c ∷ s) (w ∷ ws) = tolower c == tolower w && starts_with s ws

unfoldable pub strcasestr : List ℕ → List ℕ → Bool
unfolding starts_with
strcasestr [] w = starts_with [] w
strcasestr (c ∷ s) w = starts_with (c ∷ s) w || strcasestr s w

abbrev pub match_words : List (List ℕ)
match_words =
    codes "server"
    ∷ codes "network"
    ∷ codes "terminal"
    ∷ codes "host"
    ∷ codes "router"
    ∷ codes "switch"
    ∷ codes "equipment"
    ∷ codes "HDD"
    ∷ codes "storage"
    ∷ codes "CPU"
    ∷ codes "load"
    ∷ codes "traffic"
    ∷ codes "latency"
    ∷ codes "hop"
    ∷ codes "ttl"
    ∷ codes "as"
    ∷ codes "assoc"
    ∷ codes "less"
    ∷ codes "greater"
    ∷ codes "equal"
    ∷ codes "than"
    ∷ codes "ge"
    ∷ codes "gt"
    ∷ codes "eq"
    ∷ codes "le"
    ∷ codes "lt"
    ∷ codes "max"
    ∷ codes "min"
    ∷ []

-- How many of the words are in a string.
unfoldable pub match_score : List ℕ → List (List ℕ) → ℕ
unfolding strcasestr
match_score s [] = 0
match_score s (w ∷ ws) = if strcasestr s w then suc (match_score s ws) else match_score s ws

-- kcn_netstat_match
unfoldable pub netstat_match : List ℕ → Verdict
unfolding match_score
netstat_match s =
    let score = match_score s match_words in if score == 0 then unmatched else matched score

-- KCN_TIME_JITTER
abbrev pub time_jitter : ℕ
time_jitter = 300

-- The time window of a condition with three keys, or with more: the memory of the structure as it was.
unfoldable pub window : Outcome ℕ → Eq → List (List ℕ) → Outcome Eq
window clock ke (k ∷ ks) = ok ke
window clock ke [] =
    and_then clock
      (λ now. ok (record ke { start = (now + 2 ^ 64 - time_jitter) % 2 ^ 64; end = time_now }))

-- kcn_netstat_compile, into a structure whose memory is `ke`; too few keys fail with errno 0.
unfoldable pub compile : Outcome ℕ → Eq → List (List ℕ) → Outcome Eq
unfolding window and_then
compile clock ke [] = bad 0
compile clock ke (t ∷ []) = bad 0
compile clock ke (t ∷ o ∷ []) = bad 0
compile clock ke (t ∷ o ∷ v ∷ more) = and_then (type_aton t) (λ type.
    and_then (operator_aton o) (λ op.
      and_then (val_aton v)
        (λ val. window clock (record ke { type = type; op = op; val = val }) more)))

-- What kcn_netstat_search does with the keys; no keys at all are a null pointer too. kmq_maxcount is a
-- uint8_t.
unfoldable pub search_keys :
    Outcome ℕ → Eq → (Query → Info → Outcome Info) → Info → Option (List (List ℕ)) → Outcome Info
unfolding compile and_then
search_keys clock ke client ki none = bad einval
search_keys clock ke client ki (some []) = bad einval
search_keys clock ke client ki (some (k ∷ ks)) =
    and_then (compile clock ke (k ∷ ks))
      (λ eq. client (record { loctype = ki.loctype; maxcount = ki.maxnlocs % 2 ^ 8; eq = eq }) ki)

-- kcn_netstat_search; `memory` is about the blocks of kcn_key_split, whose fuel never ends.
unfoldable pub netstat_search :
    (ℕ → Bool)
    → Outcome ℕ
    → Eq
    → (Query → Info → Outcome Info)
    → Info
    → List ℕ
    → Option (Outcome Info)
unfolding search_keys
netstat_search memory clock ke client ki keys = elim (key_split memory keys) [
  | none ↦ none
  | some ks ↦ some (search_keys clock ke client ki ks)
]

-- struct kcn_db of the network statistics, at its address and with its handler of searches
unfoldable pub netstat : ℕ → (Info → List ℕ → Option (Outcome Info)) → Entry
unfolding netstat_match
netstat addr search = record {
  addr = addr;
  prio = 255;
  name = codes "net";
  desc = codes "Network statistics";
  match = netstat_match;
  search = search;
}

-- kcn_netstat_init and kcn_netstat_finish
unfoldable pub netstat_init :
    ℕ → (Info → List ℕ → Option (Outcome Info)) → List Entry → Option (List Entry)
unfolding netstat
netstat_init addr search l = register (netstat addr search) l

unfoldable pub netstat_finish :
    ℕ → (Info → List ℕ → Option (Outcome Info)) → List Entry → List Entry
unfolding netstat
netstat_finish addr search l = deregister (netstat addr search) l
