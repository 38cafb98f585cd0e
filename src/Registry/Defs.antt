-- ===== src/Registry/Defs.antt =====
-- The definitions of lib/kcn_db.c. The list head is the list of its entries; an entry has an address,
-- by which the code tells entries apart, and its two handlers; one of searches that fails an assertion
-- answers `none`. Logging is left out.
use mathlib.Core.Option
use kcn.Common.{
  ℕ, List, [], ◌∷◌, Option, some, none, Bool, true, false, ltb, ◌==◌, if◌then◌else◌, Outcome, ok,
  bad, einval, eprotonosupport, esrch,
}
use kcn.Common.Text.{strcasecmp}
use kcn.Info.{Info, db}

-- What a kd_match handler answers: a score, or false with errno 0, or false with another errno.
pub data Verdict : Type 0 where
  matched : ℕ → Verdict
  unmatched : Verdict
  malformed : Verdict

-- struct kcn_db
pub record Entry : Type 0 where
  pub addr : ℕ
  pub prio : ℕ
  pub name : List ℕ
  pub desc : List ℕ
  pub match : List ℕ → Verdict
  pub search : Info → List ℕ → Option (Outcome Info)

-- kcn_db_register: `none` is the failed assertion that the entry is not in the list.
unfoldable pub register : Entry → List Entry → Option (List Entry)
register new [] = some (new ∷ [])
register new (kd ∷ l) =
    if kd.addr == new.addr
    then none
    else if ltb kd.prio new.prio
    then some (new ∷ kd ∷ l)
    else Option.map (λ r. kd ∷ r) (register new l)

-- kcn_db_deregister
unfoldable pub deregister : Entry → List Entry → List Entry
deregister old [] = []
deregister old (kd ∷ l) = if kd.addr == old.addr then l else kd ∷ deregister old l

-- The loop of kcn_db_match behind the best entry so far and its score.
unfoldable pub better : Entry → ℕ → Option (Entry × ℕ) → Option (Entry × ℕ)
better kd score none = some (kd, score)
better kd score (some (best, top)) = if ltb top score then some (kd, score) else some (best, top)

-- kcn_db_match
unfoldable pub match_loop : List ℕ → Option (Entry × ℕ) → List Entry → Outcome Entry
unfolding better
match_loop keys none [] = bad eprotonosupport
match_loop keys (some (best, top)) [] = ok best
match_loop keys best (kd ∷ l) = elim (kd.match keys) [
  | malformed ↦ bad einval
  | unmatched ↦ match_loop keys best l
  | matched score ↦ match_loop keys (better kd score best) l
]

-- kcn_db_lookup
unfoldable pub lookup : List ℕ → List Entry → Outcome Entry
lookup name [] = bad esrch
lookup name (kd ∷ l) = if strcasecmp kd.name name then ok kd else lookup name l

-- kcn_db_exists
unfoldable pub exists : List ℕ → List Entry → Bool
exists name l = elim (lookup name l) [ ok kd ↦ true | bad e ↦ false ]

-- kcn_db_search
unfoldable pub search_in : Info → List ℕ → Outcome Entry → Option (Outcome Info)
search_in ki keys (bad e) = some (bad e)
search_in ki keys (ok kd) = kd.search ki keys

unfoldable pub select : List Entry → List ℕ → Option (List ℕ) → Outcome Entry
select l keys none = match_loop keys none l
select l keys (some name) = lookup name l

unfoldable pub search : List Entry → Info → List ℕ → Option (Outcome Info)
search l ki keys = search_in ki keys (select l keys (db ki))
