-- ===== src/Common/Text.antt =====
-- C strings as the list of their bytes, without the final NUL, and what the C library does on them.
use Prim.Native.Nat.{ℕ, ◌+◌, ◌-◌}
use Prim.Native.Char.{code}
use Prim.Native.String.{String}
use mathlib.Core.Bool.{Bool, true, false, ◌&&◌, ◌||◌}
use mathlib.Core.List.{List, [], ◌∷◌}
use kcn.Common.Tests.{leb, ◌==◌, if◌then◌else◌}
use kcn.Common.Lists.{take}

abbrev pub codes : String → List ℕ
codes String.[] = []
codes (String.◌∷◌ c s) = code c ∷ codes s

-- tolower() in the C locale.
unfoldable pub tolower : ℕ → ℕ
tolower c = if leb b'A' c && leb c b'Z' then c + 32 else c

-- strcasecmp() == 0
unfoldable pub strcasecmp : List ℕ → List ℕ → Bool
unfolding tolower
strcasecmp [] [] = true
strcasecmp [] (y ∷ ys) = false
strcasecmp (x ∷ xs) [] = false
strcasecmp (x ∷ xs) (y ∷ ys) = tolower x == tolower y && strcasecmp xs ys

-- isspace(), isblank() and isdigit() in the C locale.
unfoldable pub isspace : ℕ → Bool
isspace c = c == 32 || leb 9 c && leb c 13

unfoldable pub isblank : ℕ → Bool
isblank c = c == 32 || c == 9

unfoldable pub isdigit : ℕ → Bool
isdigit c = leb b'0' c && leb c b'9'

unfoldable pub isalnum : ℕ → Bool
unfolding isdigit
isalnum c = isdigit c || leb b'A' c && leb c b'Z' || leb b'a' c && leb c b'z'

-- strlcpy() into an array of `size` bytes, as lib/kcn.c has it where the C library lacks it.
unfoldable pub strlcpy : List ℕ → ℕ → List ℕ
strlcpy s size = take (size - 1) s

-- A C string ends at its first NUL.
unfoldable pub c_string : List ℕ → List ℕ
c_string [] = []
c_string (c ∷ s) = let rest = c_string s in if c == 0 then [] else c ∷ rest
