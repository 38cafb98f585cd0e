-- ===== src/File/Overwrite.antt =====
-- The bytes of a file after a write inside of it, one part after the other (kcndbd/kcndb_file.c).
use kcn.Common.{
  ℕ, ◌+◌, ◌-◌, ◌≤◌, ◌≡◌, sym, ap, ◌∙◌, List, ◌++◌, length, take, drop, arith, append-nil,
  append_assoc, length-take, length-append, drop-drop, drop-append_left, length-drop,
}
use kcn.File.Defs.{overwrite}

-- A write that does not pass the end.
overwrite-inside :
    (o : ℕ) (p c : List ℕ)
    → o ≤ length c
    → overwrite o p c ≡ take o c ++ (p ++ drop (o + length p) c)
unfolding overwrite
overwrite-inside o p c h =
    let z : o - length c ≡ 0 = omega arith in
    rw (z, append-nil) (append_assoc (take o c) p (drop (o + length p) c))

drop-past : (n : ℕ) (xs ys : List ℕ) → length xs ≤ n → drop n (xs ++ ys) ≡ drop (n - length xs) ys
drop-past n xs ys h =
    let e : n ≡ length xs + (n - length xs) = omega arith in
    ap (λ k. drop k (xs ++ ys)) e
    ∙ sym (drop-drop (n - length xs) (length xs) (xs ++ ys))
    ∙ ap (λ l. drop (n - length xs) l) (drop-append_left xs ys)

-- What is written stands at its offset.
pub drop-overwrite_at :
    (o : ℕ) (p c : List ℕ) → o ≤ length c → drop o (overwrite o p c) ≡ p ++ drop (o + length p) c
drop-overwrite_at o p c h =
    let n : length (take o c) ≡ o = omega (arith, length-take o c) in
    let z : o - length (take o c) ≡ 0 = omega arith in
    ap (λ l. drop o l) (overwrite-inside o p c h)
    ∙ drop-past o (take o c) (p ++ drop (o + length p) c) (omega arith)
    ∙ ap (λ k. drop k (p ++ drop (o + length p) c)) z

-- The bytes behind it are those that were there.
pub drop-overwrite_behind :
    (o i : ℕ) (p c : List ℕ) → o ≤ length c → o + length p ≤ i → drop i (overwrite o p c) ≡ drop i c
drop-overwrite_behind o i p c h k =
    let n : length (take o c) ≡ o = omega (arith, length-take o c) in
    let e : i ≡ o + (i - o) = omega arith in
    let e' : o + length p + (i - o - length p) ≡ i = omega arith in
    ap (λ k. drop k (overwrite o p c)) e
    ∙ sym (drop-drop (i - o) o (overwrite o p c))
    ∙ ap (λ l. drop (i - o) l) (drop-overwrite_at o p c h)
    ∙ drop-past (i - o) p (drop (o + length p) c) (omega arith)
    ∙ drop-drop (i - o - length p) (o + length p) c
    ∙ ap (λ k. drop k c) e'

pub length-overwrite :
    (o : ℕ) (p c : List ℕ) → o + length p ≤ length c → length (overwrite o p c) ≡ length c
length-overwrite o p c h =
    ap (λ (l : List ℕ). length l) (overwrite-inside o p c (omega arith))
    ∙ omega (
      arith,
      length-append (take o c) (p ++ drop (o + length p) c),
      length-append p (drop (o + length p) c),
      length-take o c,
      length-drop (o + length p) c,
    )
