-- ===== src/Db/Matches.antt =====
-- Which records a search of kcndbd/kcndb_db.c wants: the condition of lib/kcn_eq.c on their time and value.
use kcn.Common.{
  ℕ, ◌≤◌, ◌<◌, ◌^◌, ◌≡◌, ◌≢◌, refl, Option, some, none, Bool, true, false, Bool-cases, leb, ltb,
  ◌==◌, ◌⊎◌, inl, inr, arith,
}
use kcn.Eq.{Eq, time_now, time_match, op_lt, op_le, op_eq, op_gt, op_ge}
use kcn.Eq.Window.{time_match_lem}
use kcn.Db.Defs.{Record}
use kcn.Db.Records.{op_match, wanted}

-- The value of a record is in the relation of a condition to its value.
pub data Meets (ke : Eq) (v : ℕ) : Type 0 where
  less : ke.op ≡ op_lt → v < ke.val → Meets ke v
  at_most : ke.op ≡ op_le → v ≤ ke.val → Meets ke v
  equal : ke.op ≡ op_eq → v ≡ ke.val → Meets ke v
  greater : ke.op ≡ op_gt → ke.val < v → Meets ke v
  at_least : ke.op ≡ op_ge → ke.val ≤ v → Meets ke v

-- It is not, though the operator is a known one.
pub data Misses (ke : Eq) (v : ℕ) : Type 0 where
  not_less : ke.op ≡ op_lt → ke.val ≤ v → Misses ke v
  above : ke.op ≡ op_le → ke.val < v → Misses ke v
  other : ke.op ≡ op_eq → v ≢ ke.val → Misses ke v
  not_greater : ke.op ≡ op_gt → v ≤ ke.val → Misses ke v
  below : ke.op ≡ op_ge → v < ke.val → Misses ke v

abbrev pub IsUnknown : ℕ → Type 0
IsUnknown op = (op ≢ op_lt) × (op ≢ op_le) × (op ≢ op_eq) × (op ≢ op_gt) × (op ≢ op_ge)

-- A time is in the window of a condition, whose end may be open.
abbrev pub Inside : Eq → ℕ → Type 0
Inside ke t = (ke.start ≤ t) × ((ke.end ≡ time_now) ⊎ (t ≤ ke.end))

abbrev pub Outside : Eq → ℕ → Type 0
Outside ke t = (t < ke.start) ⊎ ((ke.end ≢ time_now) × (ke.end < t))

-- What a test of a value answers, on each operator.
abbrev Tested : Eq → ℕ → Option Bool → Type 0
Tested ke v r =
    ((r ≡ some true) × Meets ke v)
    ⊎ (((r ≡ some false) × Misses ke v) ⊎ ((r ≡ none) × IsUnknown ke.op))

op_match_lem : (ke : Eq) (v : ℕ) → Tested ke v (op_match ke v)
unfolding op_match
op_match_lem ke v = elim (Bool-cases (ke.op == op_lt)) [
  | inl e ↦ elim (Bool-cases (leb ke.val v)) [
    | inl h ↦ inr (inl (rw (e, h) refl, not_less (ground arith) (ground arith)))
    | inr h ↦ inl (rw (e, h) refl, less (ground arith) (ground arith))
  ]
  | inr e ↦ elim (Bool-cases (ke.op == op_le)) [
    | inl f ↦ elim (Bool-cases (ltb ke.val v)) [
      | inl h ↦ inr (inl (rw (e, f, h) refl, above (ground arith) (ground arith)))
      | inr h ↦ inl (rw (e, f, h) refl, at_most (ground arith) (ground arith))
    ]
    | inr f ↦ elim (Bool-cases (ke.op == op_eq)) [
      | inl g ↦ elim (Bool-cases (v == ke.val)) [
        | inl h ↦ inl (rw (e, f, g, h) refl, equal (ground arith) (ground arith))
        | inr h ↦ inr (inl (rw (e, f, g, h) refl, other (ground arith) (ground arith)))
      ]
      | inr g ↦ elim (Bool-cases (ke.op == op_gt)) [
        | inl i ↦ elim (Bool-cases (leb v ke.val)) [
          | inl h ↦ inr (inl (rw (e, f, g, i, h) refl, not_greater (ground arith) (ground arith)))
          | inr h ↦ inl (rw (e, f, g, i, h) refl, greater (ground arith) (ground arith))
        ]
        | inr i ↦ elim (Bool-cases (ke.op == op_ge)) [
          | inl j ↦ elim (Bool-cases (ltb v ke.val)) [
            | inl h ↦ inr (inl (rw (e, f, g, i, j, h) refl, below (ground arith) (ground arith)))
            | inr h ↦ inl (rw (e, f, g, i, j, h) refl, at_least (ground arith) (ground arith))
          ]
          | inr j ↦ inr (
              inr (
                rw (e, f, g, i, j) refl,
                ((ground arith), (ground arith), (ground arith), (ground arith), (ground arith)),
              ))
        ]
      ]
    ]
  ]
]

window_lem :
    (ke : Eq) (t : ℕ)
    → t < 2 ^ 63
    → ke.start < 2 ^ 63
    → (ke.end ≡ time_now) ⊎ (ke.end < 2 ^ 63)
    → ((time_match t ke ≡ true) × Inside ke t) ⊎ ((time_match t ke ≡ false) × Outside ke t)
window_lem ke t p q r =
    let e = time_match_lem t ke p q r in
    elim (Bool-cases (leb ke.start t)) [
      | inr f ↦ inr (rw (e, f) refl, inl (ground arith))
      | inl f ↦ elim (Bool-cases (ke.end == time_now)) [
        | inl g ↦ inl (rw (e, f, g) refl, (ground arith, inl (ground arith)))
        | inr g ↦ elim (Bool-cases (leb t ke.end)) [
          | inl h ↦ inl (rw (e, f, g, h) refl, (ground arith, inr (ground arith)))
          | inr h ↦ inr (rw (e, f, g, h) refl, inr (ground arith, ground arith))
        ]
      ]
    ]

-- What kcndb_db_search asks of a record, for times that are not negative and an end that is KCN_TIME_NOW or not
-- negative. A record is wanted just where its time is in the window of the condition, both ends
-- included, and its value is in the relation of the operator to the value of the condition. Outside
-- of the window it is passed over whatever the operator; inside of it an operator that is not one
-- of the five fails an assertion, and with one of them the record is passed over where its value
-- is not in the relation.
pub wanted_lem :
    (ke : Eq) (r : Record)
    → r.time < 2 ^ 63
    → ke.start < 2 ^ 63
    → (ke.end ≡ time_now) ⊎ (ke.end < 2 ^ 63)
    → ((wanted ke r ≡ some true) × Inside ke r.time × Meets ke r.val)
      ⊎ (((wanted ke r ≡ some false) × (Outside ke r.time ⊎ (Inside ke r.time × Misses ke r.val)))
          ⊎ ((wanted ke r ≡ none) × Inside ke r.time × IsUnknown ke.op))
unfolding wanted
wanted_lem ke r p q w = elim (window_lem ke r.time p q w) [
  | inr (e, o) ↦ inr (inl (rw (wanted, e) refl, inl o))
  | inl (e, i) ↦ elim (op_match_lem ke r.val) [
    | inl (f, m) ↦ inl (rw (wanted, e) f, i, m)
    | inr (inl (f, m)) ↦ inr (inl (rw (wanted, e) f, inr (i, m)))
    | inr (inr (f, u)) ↦ inr (inr (rw (wanted, e) f, i, u))
  ]
]
