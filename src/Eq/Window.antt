-- ===== src/Eq/Window.antt =====
-- The time window of lib/kcn_eq.c.
use kcn.Common.{ℕ, ◌^◌, ◌<◌, ◌≡◌, ◌⊎◌, inl, inr, ◌&&◌, ◌||◌, leb, ltb, ◌==◌, arith}
use kcn.Eq.Defs.{Eq, time_now, time_lt, time_match}

-- On times that are not negative, the comparison of time_t is the one of the numbers.
time_lt_lem : (a b : ℕ) → a < 2 ^ 63 → b < 2 ^ 63 → time_lt a b ≡ ltb a b
unfolding time_lt
time_lt_lem a b p q = ground arith

-- For a time and a start that are not negative and an end that is KCN_TIME_NOW or not negative,
-- the time matches just when the start is not after it, and the end is KCN_TIME_NOW or not before
-- it.
pub time_match_lem :
    (t : ℕ) (ke : Eq)
    → t < 2 ^ 63
    → ke.start < 2 ^ 63
    → (ke.end ≡ time_now) ⊎ (ke.end < 2 ^ 63)
    → time_match t ke ≡ (leb ke.start t && (ke.end == time_now || leb t ke.end))
unfolding time_match
time_match_lem t ke p q (inl e) = rw (time_lt_lem t ke.start p q) (ground arith)
time_match_lem t ke p q (inr e) =
    rw (time_lt_lem t ke.start p q, time_lt_lem ke.end t e p) (ground arith)
