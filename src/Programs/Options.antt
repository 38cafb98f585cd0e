-- ===== src/Programs/Options.antt =====
-- What the programs share: getopt() is an argument, as the options that it gives with their values, and a
-- program that prints its usage ends there. lib/kcn_log.c has the verbosity.
use kcn.Common.{ℕ, ◌+◌, List, [], ◌∷◌, Option}

-- An option that getopt() gives, and optarg, which is empty for an option without a value.
pub record Given : Type 0 where
  pub option : ℕ
  pub value : List ℕ

-- What is made of the command line: the usage with a message or without, a failed assertion, or a value.
pub data Parsed (A : Type 0) : Type 0 where
  usage : Option (List ℕ) → Parsed A
  aborted : Parsed A
  parsed : A → Parsed A

-- The loop over the options.
unfoldable pub options : {A : Type 0} → (Given → A → Parsed A) → List Given → A → Parsed A
options step [] a = parsed a
options step (g ∷ gs) a = elim (step g a) [
  | usage m ↦ usage m
  | aborted ↦ aborted
  | parsed a' ↦ options step gs a'
]

-- kcn_log_priority_increment. The priority is counted from LOG_EMERG - 1, where it starts; the test of the
-- source is about an overflow of int, which is undefined.
unfoldable pub priority_increment : ℕ → ℕ
priority_increment p = p + 1
