-- ===== src/Keys/Defs.antt =====
-- The definitions of lib/kcn.c: joining keys and splitting them.
use kcn.Common.{
  zero, suc, ℕ, ◌+◌, ◌*◌, ◌^◌, ◌%◌, List, [], ◌∷◌, ◌++◌, length, take, Option, some, none, Bool,
  true, false, ◌&&◌, if◌then◌else◌, Outcome, bad, enomem,
}
use kcn.Common.Text.{isblank, strlcpy}
use kcn.Info.{Info}
use kcn.Registry
use kcn.Registry.{Entry}

-- strncat() of the C library: `n` bytes of the second string at most.
unfoldable pub strncat : ℕ → List ℕ → List ℕ → List ℕ
strncat n s t = s ++ take n t

unfoldable pub key_lengths : List (List ℕ) → ℕ
key_lengths [] = 0
key_lengths (k ∷ ks) = length k + key_lengths ks

-- The size of the block: the keys, the separators and the final NUL.
unfoldable pub key_concat_size : List (List ℕ) → ℕ
unfolding key_lengths
key_concat_size ks = (length ks + key_lengths ks) % 2 ^ 64

unfoldable pub concat_loop : ℕ → List ℕ → List (List ℕ) → List ℕ
unfolding strncat
concat_loop n s [] = s
concat_loop n s (k ∷ ks) = concat_loop n (strncat n (strncat n s (32 ∷ [])) k) ks

-- kcn_key_concat; the flag says whether malloc() gives the block, the inner `none` is NULL, the outer
-- one the assertion on the number of keys.
unfoldable pub key_concat : Bool → List (List ℕ) → Option (Option (List ℕ))
unfolding strlcpy concat_loop key_concat_size
key_concat memory [] = none
key_concat false (k ∷ ks) = some none
key_concat true (k ∷ ks) =
    let n = key_concat_size (k ∷ ks) in some (some (concat_loop n (strlcpy k n) ks))

-- strtok_r() with a blank and a tab: the separators before the token, the token, and what is behind
-- the separator that ends it.
unfoldable pub tok_start : List ℕ → List ℕ
unfolding isblank
tok_start [] = []
tok_start (c ∷ s) = let rest = tok_start s in if isblank c then rest else c ∷ s

unfoldable pub tok_word : List ℕ → List ℕ
unfolding isblank
tok_word [] = []
tok_word (c ∷ s) = let rest = tok_word s in if isblank c then [] else c ∷ rest

unfoldable pub tok_rest : List ℕ → List ℕ
unfolding isblank
tok_rest [] = []
tok_rest (c ∷ s) = let rest = tok_rest s in if isblank c then s else rest

unfoldable pub tok_found : List ℕ → Option (List ℕ × List ℕ)
unfolding tok_word tok_rest
tok_found [] = none
tok_found (c ∷ s) = some (tok_word (c ∷ s), tok_rest (c ∷ s))

unfoldable pub strtok : List ℕ → Option (List ℕ × List ℕ)
unfolding tok_start tok_found
strtok s = tok_found (tok_start s)

-- One key in front of those that the rest of the string gives, where the two blocks it needs are given.
unfoldable pub split_key :
    Bool → List ℕ → Option (Option (List (List ℕ))) → Option (Option (List (List ℕ)))
split_key false k r = some none
split_key true k none = none
split_key true k (some none) = some none
split_key true k (some (some ks)) = some (some (k ∷ ks))

-- The loop of kcn_key_split. `memory n` says whether call `n` of realloc() or strdup() gives a block;
-- the outer `none` is the end of the fuel.
unfoldable pub split_loop : (ℕ → Bool) → ℕ → ℕ → List ℕ → Option (Option (List (List ℕ)))
unfolding strtok split_key
split_loop memory zero i s = none
split_loop memory (suc fuel) i s = elim (strtok s) [
  | none ↦ some (some [])
  | some x ↦
      split_key (memory (2 * i + 1) && memory (2 * i + 2)) x.0 (split_loop memory fuel (suc i) x.1)
]

-- kcn_key_split: the inner `none` is the failure, which leaves the caller's count as it was. No keys
-- at all are the count 0, with a null pointer as well.
unfoldable pub key_split : (ℕ → Bool) → List ℕ → Option (Option (List (List ℕ)))
unfolding split_loop
key_split memory s = if memory 0 then split_loop memory (suc (length s)) 0 s else some none

-- kcn_search, over the list of databases
unfoldable pub search_keys : List Entry → Info → List ℕ → Option (Outcome Info)
unfolding Registry.search
search_keys l ki keys = Registry.search l ki keys

-- kcn_searchv; the flag is about the block of kcn_key_concat.
unfoldable pub searchv : Bool → List Entry → Info → List (List ℕ) → Option (Outcome Info)
unfolding search_keys key_concat
searchv memory l ki ks = elim (key_concat memory ks) [
  | none ↦ none
  | some r ↦ elim r [ none ↦ some (bad enomem) | some keys ↦ search_keys l ki keys ]
]
