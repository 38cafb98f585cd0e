-- ===== src/Keys/RoundTrip.antt =====
-- Keys that are joined and split again (lib/kcn.c).
use kcn.Common.{
  zero, suc, ℕ, ◌+◌, ◌-◌, ◌^◌, ◌≤◌, ◌<◌, ◌≡◌, refl, sym, ap, ◌∙◌, List, [], ◌∷◌, ◌++◌, length, take,
  some, none, true, false, arith, length-append, append_assoc, append-nil, take-all,
}
use kcn.Common.Text.{isblank, strlcpy}
use kcn.Keys.Defs.{
  key_concat, key_split, key_concat_size, key_lengths, concat_loop, split_loop, strtok, tok_word,
  tok_rest, tok_start, tok_found, split_key, strncat,
}

abbrev pub IsWord : List ℕ → Type 0
IsWord [] = Unit {0}
IsWord (c ∷ s) = (isblank c ≡ false) × IsWord s

-- A key is a string that is not empty and has no separator in it.
abbrev pub IsKey : List ℕ → Type 0
IsKey [] = ⊥
IsKey (c ∷ s) = (isblank c ≡ false) × IsWord s

abbrev pub AreKeys : List (List ℕ) → Type 0
AreKeys [] = Unit {0}
AreKeys (k ∷ ks) = IsKey k × AreKeys ks

-- The keys with a blank before each.
abbrev pub tail_of : List (List ℕ) → List ℕ
tail_of [] = []
tail_of (k ∷ ks) = 32 ∷ (k ++ tail_of ks)

-- The keys with one blank between each and the next.
abbrev pub joined : List ℕ → List (List ℕ) → List ℕ
joined k ks = k ++ tail_of ks

pub length-tail_of : (ks : List (List ℕ)) → length (tail_of ks) ≡ length ks + key_lengths ks
unfolding key_lengths
length-tail_of [] = refl
length-tail_of (k ∷ ks) = let h = length-tail_of ks in omega (arith, length-append k (tail_of ks))

length-tail_of_le : (ks : List (List ℕ)) → length ks ≤ length (tail_of ks)
length-tail_of_le ks = omega (arith, length-tail_of ks)

concat_loop_lem :
    (n : ℕ) (s : List ℕ) (ks : List (List ℕ))
    → key_lengths ks < n
    → concat_loop n s ks ≡ s ++ tail_of ks
unfolding concat_loop strncat key_lengths
concat_loop_lem n s [] h = sym (append-nil s)
concat_loop_lem n s (k ∷ ks) h =
    let a : take {A = ℕ} n (32 ∷ []) ≡ 32 ∷ [] = take-all n (32 ∷ []) (omega arith) in
    let b : take n k ≡ k = take-all n k (omega arith) in
    rw (a, b, concat_loop_lem n ((s ++ (32 ∷ [])) ++ k) ks (omega arith))
      (append_assoc (s ++ (32 ∷ [])) k (tail_of ks) ∙ append_assoc s (32 ∷ []) (k ++ tail_of ks))

-- What kcn_key_concat does with some keys whose sizes fit into a size_t: NULL where there is no block;
-- otherwise the keys in their order with one blank between each and the next, and the string
-- with its NUL fills the block that was asked for exactly.
pub key_concat_lem :
    (k : List ℕ) (ks : List (List ℕ))
    → length (k ∷ ks) + key_lengths (k ∷ ks) < 2 ^ 64
    → (key_concat false (k ∷ ks) ≡ some none)
      × (key_concat true (k ∷ ks) ≡ some (some (joined k ks)))
      × (length (joined k ks) + 1 ≡ key_concat_size (k ∷ ks))
unfolding key_concat key_concat_size key_lengths strlcpy
key_concat_lem k ks h =
    let n : key_concat_size (k ∷ ks) ≡ length (k ∷ ks) + key_lengths (k ∷ ks) = omega arith in
    let a : take (key_concat_size (k ∷ ks) - 1) k ≡ k =
      take-all (key_concat_size (k ∷ ks) - 1) k (omega arith) in
    (
      refl,
      ap (λ s. some (some s))
          (ap (λ s. concat_loop (key_concat_size (k ∷ ks)) s ks) a
            ∙ concat_loop_lem (key_concat_size (k ∷ ks)) k ks (omega arith)),
      omega (arith, length-append k (tail_of ks), length-tail_of ks),
    )

-- A token that a blank ends, and one that the string ends.
tok_blank :
    (w t : List ℕ) → IsWord w → (tok_word (w ++ (32 ∷ t)) ≡ w) × (tok_rest (w ++ (32 ∷ t)) ≡ t)
unfolding tok_word tok_rest
tok_blank [] t h = (refl, refl)
tok_blank (c ∷ w) t (e, h) = let (a, b) = tok_blank w t h in (rw (e, a) refl, rw (e, b) refl)

tok_end : (w : List ℕ) → IsWord w → (tok_word w ≡ w) × (tok_rest w ≡ [])
unfolding tok_word tok_rest
tok_end [] h = (refl, refl)
tok_end (c ∷ w) (e, h) = let (a, b) = tok_end w h in (rw (e, a) refl, rw (e, b) refl)

-- What strtok_r() leaves behind the first of some keys.
rest_of : List (List ℕ) → List ℕ
rest_of [] = []
rest_of (k ∷ ks) = joined k ks

strtok-joined :
    (k : List ℕ) (ks : List (List ℕ)) → IsKey k → strtok (joined k ks) ≡ some (k, rest_of ks)
unfolding strtok tok_start tok_found rest_of
strtok-joined [] ks h = elim h [ ]
strtok-joined (c ∷ w) [] (e, h) = let (a, b) = tok_end w h in rw (append-nil w, e, e, a, b) refl
strtok-joined (c ∷ w) (k ∷ ks) (e, h) =
    let (a, b) = tok_blank w (k ++ tail_of ks) h in rw (e, e, a, b) refl

split_loop-some :
    (fuel i : ℕ) (s k t : List ℕ)
    → strtok s ≡ some (k, t)
    → split_loop (λ n. true) (suc fuel) i s
      ≡ split_key true k (split_loop (λ n. true) fuel (suc i) t)
unfolding split_loop
split_loop-some fuel i s k t e = rw (split_loop, e) refl

split_loop-joined :
    (fuel i : ℕ) (k : List ℕ) (ks : List (List ℕ))
    → AreKeys (k ∷ ks)
    → length ks + 2 ≤ fuel
    → split_loop (λ n. true) fuel i (joined k ks) ≡ some (some (k ∷ ks))
unfolding split_loop split_key rest_of strtok tok_start tok_found
split_loop-joined zero i k ks h f = absurd (omega arith)
split_loop-joined (suc zero) i k ks h f = absurd (omega arith)
split_loop-joined (suc (suc fuel)) i k [] (a, h) f =
    split_loop-some (suc fuel) i (joined k []) k [] (strtok-joined k [] a)
split_loop-joined (suc (suc fuel)) i k (l ∷ ks) (a, h) f =
    split_loop-some (suc fuel) i (joined k (l ∷ ks)) k (joined l ks) (strtok-joined k (l ∷ ks) a)
    ∙ ap (split_key true k) (split_loop-joined (suc fuel) (suc i) l ks h (omega arith))

key_size : (k : List ℕ) → IsKey k → 1 ≤ length k
key_size [] h = elim h [ ]
key_size (c ∷ k) h = omega arith

-- Where every block is given, kcn_key_split gives back the keys that kcn_key_concat has joined: some
-- keys that are not empty and have no blank and no tab in them, whose sizes fit into a size_t.
pub key_split-key_concat :
    (k : List ℕ) (ks : List (List ℕ))
    → AreKeys (k ∷ ks)
    → length (k ∷ ks) + key_lengths (k ∷ ks) < 2 ^ 64
    → (s : List ℕ) × (key_concat true (k ∷ ks) ≡ some (some s))
      × (key_split (λ n. true) s ≡ some (some (k ∷ ks)))
unfolding key_split
key_split-key_concat k ks h z =
    let (x, c, y) = key_concat_lem k ks z in
    (
      joined k ks,
      c,
      split_loop-joined (suc (length (joined k ks))) 0 k ks h
          (omega (arith, length-append k (tail_of ks), length-tail_of_le ks, key_size k h.0)),
    )
