-- ===== src/Db/Chains/Tests.antt =====
-- The theorems on the file of locators (kcndbd/kcndb_db.c) at concrete inputs.
use kcn.Common.{
  ℕ, ◌+◌, ◌*◌, ◌≡◌, refl, List, [], ◌∷◌, ◌++◌, replicate, drop, some, false, ok, arith, All, ap,
}
use kcn.Common.Text.{codes}
use kcn.Buf.{data_new, init}
use kcn.Buf.Store.{bytes64}
use kcn.Str.{str_hash}
use kcn.Str
use kcn.File.{File, opened}
use kcn.Db.Defs.{Table}
use kcn.Db.Lookup.{IsQuiet}
use kcn.Db.Locators.{loc_add, loc_lookup}
use kcn.Db.Chains.Append.{entry, linked}
use kcn.Db.Chains.Slots.{PointsTo}
use kcn.Db.Chains.Walk.{HasEntry, NotNul}
use kcn.Db.Chains.Add.{IsLocFile, hash, loc_add_new}
use kcn.Db.Chains.Naming.{loc_add-loc_lookup}

-- A file of locators with its table of offsets and nothing else.
abbrev fresh : Table
fresh = record {
  locs = opened (replicate 2100 0) (replicate 2048 0) [];
  table = opened [] [] [];
  locsize = 2048;
  tablesize = 0;
  readers = 0;
  writer = false;
}

abbrev first : List ℕ → ℕ
first [] = 0
first (x ∷ l) = x

cd_plain : All NotNul (codes "cd")
cd_plain = (λ e. omega arith, (λ e. omega arith, tt))

fresh-IsLocFile : IsLocFile fresh
unfolding opened init data_new
fresh-IsLocFile = record {
  quiet = (record { valid = omega arith; errnos = tt {0} }, refl);
  block = omega arith;
  table = omega arith;
  counted = refl;
}

no_entry : PointsTo fresh.locs.content (hash (codes "cd")) 0
unfolding opened init data_new str_hash Str.hash_loop
no_entry = record { rest = drop (8 * hash (codes "cd") + 8) (replicate 2048 0); at_entry = refl }

loc_add-loc_lookup_example :
    (f g k : File) × (loc_add 1 (codes "cd") fresh
      ≡ some (ok 2048, record fresh { locs = f; locsize = 2060 }))
    × (loc_lookup 2048 (record fresh { locs = f; locsize = 2060 })
        ≡ some (ok (codes "cd"), record fresh { locs = g; locsize = 2060 }))
    × (loc_add 1 (codes "cd") (record fresh { locs = g; locsize = 2060 })
        ≡ some (ok 2048, record fresh { locs = k; locsize = 2060 }))
    × (k.content ≡ f.content)
unfolding opened init data_new
loc_add-loc_lookup_example =
    loc_add-loc_lookup (codes "cd") fresh fresh-IsLocFile no_entry cd_plain (omega arith)
      (omega arith) (omega arith) 0

-- A file in which the chain of "cd" has the locator "ab".
abbrev chained : Table
chained = record fresh {
  locs =
      opened (replicate 2100 0)
        (replicate 312 0 ++ (bytes64 2048 ++ (replicate 1728 0 ++ entry (codes "ab")))) [];
  locsize = 2060;
}

chained-IsLocFile : IsLocFile chained
unfolding opened init data_new
chained-IsLocFile = record {
  quiet = (record { valid = omega arith; errnos = tt {0} }, refl);
  block = omega arith;
  table = omega arith;
  counted = refl;
}

chain_head : PointsTo chained.locs.content (hash (codes "cd")) 2048
unfolding opened init data_new str_hash Str.hash_loop
chain_head = record { rest = replicate 1728 0 ++ entry (codes "ab"); at_entry = refl }

chain_link : HasEntry chained.locs.content chained.locs.buf.size 2048 (codes "ab") 0
unfolding opened init data_new
chain_link = record {
  rest = [];
  at_offset = refl;
  in_half = omega arith;
  in_block = omega arith;
  in_range = omega arith;
  in_u64 = omega arith;
}

loc_add_new_example :
    (f : File) × (loc_add 2 (codes "cd") chained
      ≡ some (ok 2060, record chained { locs = f; locsize = 2072 }))
    × IsQuiet f
    × (f.content ≡ linked (codes "cd") 4 chained.locs.content)
    × (f.buf.size ≡ 2100)
unfolding opened init data_new
loc_add_new_example =
    loc_add_new (codes "ab" ∷ []) 0 2048 (codes "cd") chained chained-IsLocFile chain_head
      (omega arith) (λ e. omega arith, (0, chain_link, refl)) cd_plain
      (λ e. let k : 97 ≡ 99 = ap first e in omega arith, tt) (omega arith) (omega arith)
