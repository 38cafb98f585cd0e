-- ===== src/Token/Tests.antt =====
-- Runs of lib/kcn_token.c, and the theorem at a concrete input.
use kcn.Common.{◌≡◌, refl, [], some}
use kcn.Common.Text.{codes}
use kcn.Token.Defs.{Token, get}

abbrev line : Token
line = record { sp = []; ep = codes "  add 1" }

get_run : get line ≡ (some (codes "add"), record { sp = codes "add 1"; ep = codes " 1" })
unfolding get
get_run = refl
