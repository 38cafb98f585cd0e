-- ===== src/File/Tests.antt =====
-- Runs of kcndbd/kcndb_file.c, and the theorems at concrete inputs.
use kcn.Common.{◌≡◌, [], ◌∷◌, some, Outcome, arith}
use kcn.File.Defs.{File, up_to, fails, ensure}
use kcn.File.Fill.{IsSound}
use kcn.File.Reading.{Ensured, ensure_lem}

-- Two bytes in the buffer, three to come, one at a time and then none for an error.
abbrev partial : File
partial = record {
  size = 0;
  buf = record { size = 6; sp = 1; ep = 3; bytes = 9 ∷ 1 ∷ 2 ∷ 9 ∷ 9 ∷ 9 ∷ []; cp = 1 };
  content = 1 ∷ 2 ∷ 3 ∷ 4 ∷ 5 ∷ [];
  offset = 2;
  answers = up_to 1 ∷ fails 5 ∷ [];
}

partial-IsSound : IsSound partial
partial-IsSound = record { valid = omega arith; errnos = (tt, ((ground arith), tt)) }

ensure_lem_example :
    (f' : File) × (o : Outcome (Unit {0})) × (ensure 5 partial ≡ some (o, f'))
    × Ensured 5 partial o f'
ensure_lem_example = ensure_lem 5 partial-IsSound (omega arith)

abbrev pending : File
pending = record partial { answers = [] }
