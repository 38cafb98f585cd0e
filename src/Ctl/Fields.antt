-- ===== src/Ctl/Fields.antt =====
-- The fields of a line that the control program reads (kcndbctl/kcndbctl_file.c).
use kcn.Common.{
  ℕ, zero, suc, ◌+◌, ◌-◌, ◌≤◌, ◌<◌, ◌≡◌, refl, sym, ap, ◌∙◌, List, [], ◌∷◌, length, take, drop,
  some, false, Bool-cases, inl, inr, not, ltb, ◌==◌, if◌then◌else◌, Outcome, ok, bad, eagain,
  einval, e2big, take-take, arith,
}
use kcn.Common.Text.{isspace}
use kcn.Common.Fallible.{◌>>=◌, ◌>>◌, lift, gets}
use kcn.Buf.{Buf, len}
use kcn.Buf.View.{IsValid, ahead, skip, trailingdata_lem, len_lem}
use kcn.Buf.Load.{length-ahead, ahead-skip, get8_lem}
use kcn.Msg.{maxlocsiz}
use kcn.Ctl.Defs.{isprint, forward_byte, forward_loop, forward, getstr}

-- How a field ends in some bytes, and how many of them are read: a space ends it, a byte that is not
-- printable is an error, and so is the end of the bytes.
abbrev pub scan : List ℕ → Outcome (Unit {0}) × ℕ
scan [] = (bad eagain, 0)
scan (c ∷ s) =
    if isspace c
    then (ok tt, 1)
    else if not (isprint c)
    then (bad einval, 1)
    else ((scan s).0, suc (scan s).1)

-- The string of a field that has ended.
abbrev pub field : Outcome (Unit {0}) → ℕ → List ℕ → Outcome (List ℕ)
field (bad e) n xs = bad e
field (ok u) n xs = if ltb maxlocsiz n then bad e2big else ok (take n xs)

skip-skip : (n : ℕ) (b : Buf) → skip n (skip 1 b) ≡ skip (suc n) b
skip-skip n b = ap (λ c. record b { cp = c }) (omega arith)

scan_le : (xs : List ℕ) → (scan xs).1 ≤ length xs
scan_le [] = omega arith
scan_le (c ∷ s) = elim (Bool-cases (isspace c)) [
  | inl y ↦ rw y (omega arith)
  | inr y ↦ elim (Bool-cases (not (isprint c))) [
    | inl z ↦ rw (y, z) (omega arith)
    | inr z ↦ rw (y, z) (omega (arith, scan_le s))
  ]
]

forward_loop_lem :
    (xs : List ℕ) (fuel : ℕ) {b : Buf}
    → IsValid b
    → ahead b ≡ xs
    → length xs < fuel
    → forward_loop fuel b ≡ some ((scan xs).0, skip (scan xs).1 b)
unfolding forward_loop forward_byte
forward_loop_lem xs zero v e h = absurd (omega arith)
forward_loop_lem [] (suc fuel) {b} v e h =
    let z : b.ep - b.cp ≡ 0 = sym (length-ahead v) ∙ ap (λ (l : List ℕ). length l) e in
    rw (forward_loop, ◌>>=◌, lift, trailingdata_lem v, z)
      (ap (λ c. some (bad eagain, record b { cp = c })) (omega arith))
forward_loop_lem (c ∷ s) (suc fuel) {b} v e h =
    let n : b.ep - b.cp ≡ suc (length s) = sym (length-ahead v) ∙ ap (λ (l : List ℕ). length l) e in
    let z : (b.ep - b.cp == 0) ≡ false = ground arith in
    let (w, a) = ahead-skip (c ∷ []) s v e in
    let r : forward_loop (suc fuel) b ≡ forward_byte c (forward_loop fuel) (skip 1 b) =
      rw (forward_loop, ◌>>=◌, lift, trailingdata_lem v, z, get8_lem c s v e) refl in
    r ∙ elim (Bool-cases (isspace c)) [
      | inl y ↦ rw (forward_byte, y) refl
      | inr y ↦ elim (Bool-cases (not (isprint c))) [
        | inl x ↦ rw (forward_byte, y, x) refl
        | inr x ↦
            rw (forward_byte, y, x)
              (forward_loop_lem s fuel w a (omega arith)
                ∙ ap (λ k. some ((scan s).0, k)) (skip-skip (scan s).1 b))
      ]
    ]

forward_lem :
    {b : Buf} → IsValid b → forward b ≡ some ((scan (ahead b)).0, skip (scan (ahead b)).1 b)
unfolding forward
forward_lem {b} v =
    forward_loop_lem (ahead b) (suc (len b)) v refl (omega (arith, len_lem v, length-ahead v))

-- A field of `n` bytes and the space behind it, as the two pointers have it.
cut_field :
    (xs : List ℕ) (o : Outcome (Unit {0})) (k : ℕ) {b : Buf}
    → IsValid b
    → ahead b ≡ xs
    → k ≤ length xs
    → forward b ≡ some (o, skip k b)
    → getstr b ≡ some (field o (k - 1) xs, skip k b)
unfolding getstr
cut_field xs (bad e) k {b} v a h f = rw (getstr, ◌>>=◌, ◌>>◌, gets, f) refl
cut_field xs (ok tt) k {b} v a h f =
    let n : b.cp + k - b.cp - 1 ≡ k - 1 = omega arith in
    let l : length xs ≡ b.ep - b.cp = ap (λ (r : List ℕ). length r) (sym a) ∙ length-ahead v in
    let t : take (k - 1) (drop b.cp b.bytes) ≡ take (k - 1) xs =
      sym (take-take (k - 1) (b.ep - b.cp) (drop b.cp b.bytes) (omega arith))
      ∙ ap (λ r. take (k - 1) r) a in
    elim (Bool-cases (ltb maxlocsiz (k - 1))) [
      | inl y ↦ rw (getstr, ◌>>=◌, ◌>>◌, gets, f, n, y) refl
      | inr y ↦ rw (getstr, ◌>>=◌, ◌>>◌, gets, f, n, y, t) refl
    ]

-- What getstr of the control program does on any valid buffer, as a function of the bytes ahead. A field
-- ends at the first space, and its bytes before the space are the string, unless they are too
-- many for a locator, which is E2BIG. Where another byte that is not printable comes before, it is
-- EINVAL; where the bytes end first, EAGAIN. The cursor has passed the bytes that were looked at.
pub getstr_lem :
    {b : Buf}
    → IsValid b
    → getstr b
      ≡ some
          (field (scan (ahead b)).0 ((scan (ahead b)).1 - 1) (ahead b), skip (scan (ahead b)).1 b)
getstr_lem {b} v =
    cut_field (ahead b) (scan (ahead b)).0 (scan (ahead b)).1 v refl (scan_le (ahead b))
      (forward_lem v)
