-- ===== src/Registry/Match.antt =====
-- The choice of a database in lib/kcn_db.c.
use kcn.Common.{
  ℕ, ◌≤◌, ◌<◌, ◌≡◌, refl, ap, List, [], ◌∷◌, ◌++◌, some, none, ltb, ◌⊎◌, inl, inr, All, Bool-cases,
  arith, Outcome, ok, bad, einval, eprotonosupport,
}
use kcn.Registry.Defs.{Entry, Verdict, matched, unmatched, malformed, better, match_loop}

-- A database does not match the keys, or with a score below, or not above, the bound.
pub data IsBelow (bound : ℕ) : Verdict → Type 0 where
  lower : (score : ℕ) → score < bound → IsBelow bound (matched score)
  silent : IsBelow bound unmatched

pub data IsAtMost (bound : ℕ) : Verdict → Type 0 where
  at_most : (score : ℕ) → score ≤ bound → IsAtMost bound (matched score)
  quiet : IsAtMost bound unmatched

-- Some database takes the keys for malformed.
abbrev pub Rejected : List ℕ → List Entry → Type 0
Rejected keys l =
    (before : List Entry) × (kd : Entry) × (after : List Entry) × (l ≡ before ++ kd ∷ after)
    × (kd.match keys ≡ malformed)

-- The database matches with the highest score of all, and is the first with this score.
abbrev pub IsFirstBest : List ℕ → List Entry → Entry → ℕ → Type 0
IsFirstBest keys l kd score =
    (before : List Entry) × (after : List Entry) × (l ≡ before ++ kd ∷ after)
    × (kd.match keys ≡ matched score)
    × All (λ e. IsBelow score (e.match keys)) before
    × All (λ e. IsAtMost score (e.match keys)) after

-- What the loop gives behind an entry and its score.
data LoopResult (keys : List ℕ) (best : Entry) (top : ℕ) (l : List Entry)
    : Outcome Entry → Type 0 where
  rejected : Rejected keys l → LoopResult keys best top l (bad einval)
  kept : All (λ e. IsAtMost top (e.match keys)) l → LoopResult keys best top l (ok best)
  changed :
      (kd : Entry) (score : ℕ)
      → top < score
      → IsFirstBest keys l kd score
      → LoopResult keys best top l (ok kd)

Verdict-cases :
    (v : Verdict) → (v ≡ malformed) ⊎ (v ≡ unmatched) ⊎ ((score : ℕ) × (v ≡ matched score))
Verdict-cases malformed = inl refl
Verdict-cases unmatched = inr (inl refl)
Verdict-cases (matched score) = inr (inr (score, refl))

Rejected-cons :
    (keys : List ℕ) (kd : Entry) (l : List Entry) → Rejected keys l → Rejected keys (kd ∷ l)
Rejected-cons keys kd l (before, e, after, split, m) =
    (kd ∷ before, e, after, ap (λ r. kd ∷ r) split, m)

IsFirstBest-cons :
    (keys : List ℕ) (kd : Entry) (l : List Entry) (e : Entry) (score : ℕ)
    → IsBelow score (kd.match keys)
    → IsFirstBest keys l e score
    → IsFirstBest keys (kd ∷ l) e score
IsFirstBest-cons keys kd l e score b (before, after, split, m, low, high) =
    (kd ∷ before, after, ap (λ r. kd ∷ r) split, m, (b, low), high)

-- An entry that cannot replace the best one.
LoopResult-pass :
    (keys : List ℕ) (best : Entry) (top : ℕ) (kd : Entry) (l : List Entry) (o : Outcome Entry)
    → IsAtMost top (kd.match keys)
    → ((score : ℕ) → top < score → IsBelow score (kd.match keys))
    → LoopResult keys best top l o
    → LoopResult keys best top (kd ∷ l) o
LoopResult-pass keys best top kd l _ a b (rejected r) = rejected (Rejected-cons keys kd l r)
LoopResult-pass keys best top kd l _ a b (kept h) = kept (a, h)
LoopResult-pass keys best top kd l _ a b (changed e score t h) =
    changed e score t (IsFirstBest-cons keys kd l e score (b score t) h)

-- An entry that replaces the best one.
LoopResult-replace :
    (keys : List ℕ) (best : Entry) (top : ℕ) (kd : Entry) (s : ℕ) (l : List Entry)
    (o : Outcome Entry)
    → kd.match keys ≡ matched s
    → top < s
    → LoopResult keys kd s l o
    → LoopResult keys best top (kd ∷ l) o
LoopResult-replace keys best top kd s l _ m t (rejected r) = rejected (Rejected-cons keys kd l r)
LoopResult-replace keys best top kd s l _ m t (kept h) = changed kd s t ([], l, refl, m, tt, h)
LoopResult-replace keys best top kd s l _ m t (changed e score u h) =
    changed e score (omega arith) (IsFirstBest-cons keys kd l e score (rw m (lower s u)) h)

match_loop-LoopResult :
    (keys : List ℕ) (best : Entry) (top : ℕ) (l : List Entry)
    → LoopResult keys best top l (match_loop keys (some (best, top)) l)
unfolding match_loop better
match_loop-LoopResult keys best top [] = kept tt
match_loop-LoopResult keys best top (kd ∷ l) = elim (Verdict-cases (kd.match keys)) [
  | inl m ↦ rw m (rejected ([], kd, l, refl, m))
  | inr (inl m) ↦ rw m (
      LoopResult-pass keys best top kd l _ (rw m quiet) (λ score t. rw m silent)
        (match_loop-LoopResult keys best top l))
  | inr (inr (s, m)) ↦ elim (Bool-cases (ltb top s)) [
    | inl t ↦
        rw (m, t)
          (LoopResult-replace keys best top kd s l _ m (ground arith)
            (match_loop-LoopResult keys kd s l))
    | inr t ↦
        let le : s ≤ top = ground arith in
        rw (m, t)
          (LoopResult-pass keys best top kd l _ (rw m (at_most s le))
            (λ score u. rw m (lower s (omega arith))) (match_loop-LoopResult keys best top l))
  ]
]

-- What kcn_db_match gives for a list of databases.
pub data MatchResult (keys : List ℕ) (l : List Entry) : Outcome Entry → Type 0 where
  invalid : Rejected keys l → MatchResult keys l (bad einval)
  unsupported : All (λ e. e.match keys ≡ unmatched) l → MatchResult keys l (bad eprotonosupport)
  found : (kd : Entry) (score : ℕ) → IsFirstBest keys l kd score → MatchResult keys l (ok kd)

MatchResult-pass :
    (keys : List ℕ) (kd : Entry) (l : List Entry) (o : Outcome Entry)
    → kd.match keys ≡ unmatched
    → MatchResult keys l o
    → MatchResult keys (kd ∷ l) o
MatchResult-pass keys kd l _ m (invalid r) = invalid (Rejected-cons keys kd l r)
MatchResult-pass keys kd l _ m (unsupported h) = unsupported (m, h)
MatchResult-pass keys kd l _ m (found e score h) =
    found e score (IsFirstBest-cons keys kd l e score (rw m silent) h)

MatchResult-start :
    (keys : List ℕ) (kd : Entry) (s : ℕ) (l : List Entry) (o : Outcome Entry)
    → kd.match keys ≡ matched s
    → LoopResult keys kd s l o
    → MatchResult keys (kd ∷ l) o
MatchResult-start keys kd s l _ m (rejected r) = invalid (Rejected-cons keys kd l r)
MatchResult-start keys kd s l _ m (kept h) = found kd s ([], l, refl, m, tt, h)
MatchResult-start keys kd s l _ m (changed e score u h) =
    found e score (IsFirstBest-cons keys kd l e score (rw m (lower s u)) h)

-- kcn_db_match fails with EINVAL, and then some database takes the keys for malformed; or it fails
-- with EPROTONOSUPPORT, and then none matches them; or it gives the first of the databases that
-- match with the highest score.
pub match_loop-MatchResult :
    (keys : List ℕ) (l : List Entry) → MatchResult keys l (match_loop keys none l)
unfolding match_loop better
match_loop-MatchResult keys [] = unsupported tt
match_loop-MatchResult keys (kd ∷ l) = elim (Verdict-cases (kd.match keys)) [
  | inl m ↦ rw m (invalid ([], kd, l, refl, m))
  | inr (inl m) ↦ rw m (MatchResult-pass keys kd l _ m (match_loop-MatchResult keys l))
  | inr (inr (s, m)) ↦ rw m (MatchResult-start keys kd s l _ m (match_loop-LoopResult keys kd s l))
]
