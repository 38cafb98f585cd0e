-- ===== src/Keys/Tests.antt =====
-- Runs of lib/kcn.c, and the theorems at concrete inputs.
use kcn.Common.{ℕ, ◌≡◌, refl, List, [], ◌∷◌, some, true, arith}
use kcn.Common.Text.{codes, isblank}
use kcn.Keys.Defs.{
  key_concat, key_split, key_lengths, split_loop, strtok, split_key, tok_start, tok_found, tok_word,
  tok_rest,
}
use kcn.Keys.RoundTrip.{key_split-key_concat}

abbrev two_keys : List (List ℕ)
two_keys = codes "cpu" ∷ codes "low" ∷ []

blanks : key_split (λ n. true) (codes "  cpu \t low ") ≡ some (some two_keys)
unfolding key_split split_loop strtok split_key tok_start tok_found tok_word tok_rest isblank
blanks = refl

key_split-key_concat_example :
    (s : List ℕ) × (key_concat true two_keys ≡ some (some s))
    × (key_split (λ n. true) s ≡ some (some two_keys))
unfolding isblank key_lengths
key_split-key_concat_example =
    key_split-key_concat (codes "cpu") (codes "low" ∷ [])
      ((refl, (refl, (refl, tt))), ((refl, (refl, (refl, tt))), tt)) (omega arith)
