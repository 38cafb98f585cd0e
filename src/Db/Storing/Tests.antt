-- ===== src/Db/Storing/Tests.antt =====
-- The theorems on the additions to a table (kcndbd/kcndb_db.c) at concrete inputs.
use kcn.Common.{
  ℕ, ◌+◌, ◌*◌, ◌≡◌, refl, List, [], ◌∷◌, ◌++◌, replicate, length, drop, some, Bool, true, false, ok,
  arith,
}
use kcn.Common.Text.{codes}
use kcn.Buf.{data_new, init}
use kcn.Str.{str_hash}
use kcn.Str
use kcn.File.{opened}
use kcn.Eq.{Eq, time_now, op_ge, type_cpuload, time_lt, time_match}
use kcn.Db.Defs.{Record, Table, table_open}
use kcn.Db.Lookup.{HasLocator}
use kcn.Db.Reading.{record_bytes}
use kcn.Db.Records.{wanted, record_add}
use kcn.Db.Records
use kcn.Db.Rounds.{handed}
use kcn.Db.Selection.{selected, answer}
use kcn.Db.Chains.Append.{entry}
use kcn.Db.Chains.Slots.{PointsTo}
use kcn.Db.Chains.Add.{hash}
use kcn.Db.Storing.State.{IsStore, IsNew}
use kcn.Db.Storing.Store.{record_add-IsStore}
use kcn.Db.Storing.Answers.{search-record_add}
use kcn.Db.Storing.Opening.{IsUnopened, table_open-IsStore}

-- The record that the table has, and the one that is added.
abbrev first : Record
first = record { time = 5; val = 42; locidx = 2048; loc = codes "ab" }

abbrev second : Record
second = record { time = 6; val = 50; locidx = 0; loc = codes "cd" }

abbrev store : Table
store = record {
  locs = opened (replicate 2100 0) (replicate 2048 0 ++ entry (codes "ab")) [];
  table = opened (replicate 48 0) (record_bytes first) [];
  locsize = 2060;
  tablesize = 24;
  readers = 0;
  writer = false;
}

abbrev busy : Eq
busy = record { type = type_cpuload; op = op_ge; val = 40; start = 0; end = time_now }

abbrev collect : Record → ℕ → List (List ℕ) → Bool × List (List ℕ)
collect r score s = (true, s ++ (r.loc ∷ []))

first_known : wanted busy first ≡ some true
unfolding Records.wanted Records.op_match time_match time_lt
first_known = refl

second_known : wanted busy second ≡ some true
unfolding Records.wanted Records.op_match time_match time_lt
second_known = refl

in_order : time_lt 6 5 ≡ false
unfolding time_lt
in_order = refl

first_locator : HasLocator store.locs.content store.locs.buf.size 2048 (codes "ab")
unfolding opened init data_new
first_locator = record {
  rest = replicate 8 0;
  at_offset = refl;
  in_half = omega arith;
  in_block = omega arith;
  in_range = omega arith;
}

store-IsStore : IsStore busy (first ∷ []) store
unfolding opened init data_new
store-IsStore = record {
  idle = record {
    quiet = (record { valid = omega arith; errnos = tt {0} }, refl);
    empty = refl;
    block = omega arith;
    content = refl;
    counted = refl;
    in_range = omega arith;
  };
  locs = record {
    quiet = (record { valid = omega arith; errnos = tt {0} }, refl);
    block = omega arith;
    table = omega arith;
    counted = refl;
  };
  stored = (
    record {
      time_u64 = omega arith;
      val_u64 = omega arith;
      locidx_u64 = omega arith;
      locator = first_locator;
      in_file = omega arith;
      known = λ h. let e = first_known in cc;
    },
    tt,
  );
  behind = (omega arith, tt);
  unlocked = refl;
  alone = refl;
}

no_chain : PointsTo store.locs.content (hash (codes "cd")) 0
unfolding opened init data_new str_hash Str.hash_loop
no_chain = record { rest = drop (8 * hash (codes "cd") + 8) store.locs.content; at_entry = refl }

second-IsNew : IsNew busy (first ∷ []) second store
unfolding opened init data_new
second-IsNew = record {
  free = no_chain;
  plain = (λ e. omega arith, (λ e. omega arith, tt));
  in_half = omega arith;
  room = omega arith;
  short = omega arith;
  short_table = omega arith;
  time_u64 = omega arith;
  val_u64 = omega arith;
  known = λ h. let e = second_known in cc;
  in_order = in_order;
}

-- The record as the table has it.
abbrev second_placed : Record
second_placed = record second { locidx = 2060 }

record_add-IsStore_example :
    (u : Table) × (record_add 1 second store ≡ some (ok 2060, u))
    × IsStore busy (first ∷ second_placed ∷ []) u
unfolding opened init data_new
record_add-IsStore_example =
    record_add-IsStore busy (first ∷ []) second 0 store store-IsStore second-IsNew

search-record_add_example :
    (u v : Table) × (record_add 1 second store ≡ some (ok 2060, u))
    × (Records.search collect 3 busy 10 (u, [])
        ≡ some (
          answer
              (handed collect (selected busy 10 (first ∷ second_placed ∷ [])) []).0
              (length (selected busy 10 (first ∷ second_placed ∷ []))),
          (v, (handed collect (selected busy 10 (first ∷ second_placed ∷ [])) []).1),
        ))
unfolding opened init data_new
search-record_add_example =
    search-record_add collect busy (first ∷ []) second 0 3 10 store [] store-IsStore second-IsNew
      (omega arith)

-- What the callback collects then.
found_lem :
    (handed collect (selected busy 10 (first ∷ second_placed ∷ [])) []).1
    ≡ codes "ab" ∷ codes "cd" ∷ []
unfolding Records.wanted Records.op_match time_match time_lt
found_lem = refl

-- A table that has never been opened.
abbrev unopened : Table
unopened = record {
  locs = opened (replicate 2100 0) [] [];
  table = opened (replicate 48 0) [] [];
  locsize = 0;
  tablesize = 0;
  readers = 0;
  writer = false;
}

unopened-IsUnopened : IsUnopened unopened
unfolding opened init data_new
unopened-IsUnopened = record {
  locs_quiet = (record { valid = omega arith; errnos = tt {0} }, refl);
  table_quiet = (record { valid = omega arith; errnos = tt {0} }, refl);
  locs_empty = refl;
  table_empty = refl;
  locs_block = omega arith;
  table_block = omega arith;
  locs_start = refl;
  table_start = refl;
  locsize = refl;
  tablesize = refl;
}

table_open-IsStore_example :
    (u : Table) × (table_open unopened ≡ some (ok tt, u))
    × IsStore busy [] u
    × PointsTo u.locs.content 39 0
    × (length u.locs.content ≡ 2048)
table_open-IsStore_example =
    table_open-IsStore busy 39 unopened unopened-IsUnopened refl refl (omega arith)
