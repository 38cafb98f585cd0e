-- ===== src/Info/Tests.antt =====
-- A run of lib/kcn_info.c.
use kcn.Common.{◌≡◌, refl, [], ◌∷◌, some}
use kcn.Common.Text.{codes}
use kcn.Info.Defs.{Info, db_set, db}

abbrev one : Info
one = record {
  loctype = 1;
  maxnlocs = 3;
  dbname = [];
  country = [];
  userip = [];
  time = 0;
  locs = record { uri = codes "a.org"; score = 0 } ∷ [];
}

-- A name is cut to six characters.
db_run : db (db_set one (some (codes "netnetnet"))) ≡ some (codes "netnet")
unfolding db db_set
db_run = refl
