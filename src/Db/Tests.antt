-- ===== src/Db/Tests.antt =====
-- Runs of kcndbd/kcndb_db.c, and the theorems at concrete inputs.
use kcn.Common.{
  ℕ, ◌⊎◌, inl, ◌≡◌, refl, List, [], ◌∷◌, ◌++◌, replicate, Option, some, none, Bool, true, false,
  Outcome, ok, length, arith,
}
use kcn.Common.Text.{codes}
use kcn.Buf.{
  data_new, init, reset, len, read, make_room, has_room, realign, copy_within, take_in, read_loop,
  read_error, trailingdata, trailingspace, headingdata, append, grow, need, load_next, get16, get64,
  trim_head,
}
use kcn.File.{opened, seek_head, seek, ensure, ensure_loop, fill, left, next, readable}
use kcn.File.Fill.{IsSound}
use kcn.Db.Lookup.{HasLocator}
use kcn.Db.Search.{search-selected}
use kcn.Db.Rounds.{handed}
use kcn.Db.Matches.{Inside, Outside, Meets, Misses, IsUnknown, wanted_lem}
use kcn.Db.Selection.{IsTable, selected, answer}
use kcn.Db.Records.{wanted}
use kcn.Eq.{Eq, time_now, op_ge, type_cpuload, time_lt, time_match}
use kcn.Db.Defs
use kcn.Db.Locators
use kcn.Db.Defs.{Record, Table, table_open}
use kcn.Db.Records.{record_add, record_read, record_read_last}
use kcn.Db.Records
use kcn.Db.Keeps.{Leaves}
use kcn.Db.Locks.{SearchLeaves, record_add-lock, search-lock, record_add-search}

-- A record with time 5, value 42 and the locator at 0, whose bytes are "ab".
abbrev one : Table
one = record {
  locs = opened (replicate 16 0) (0 ∷ 2 ∷ 97 ∷ 98 ∷ replicate 8 0) [];
  table =
      opened (replicate 40 0) (replicate 7 0 ++ (5 ∷ (replicate 7 0 ++ (42 ∷ replicate 8 0)))) [];
  locsize = 12;
  tablesize = 24;
  readers = 0;
  writer = false;
}

abbrev measure : ℕ → List ℕ → Record
measure t l = record { time = t; val = 7; locidx = 0; loc = l }

-- A callback that collects the locators.
abbrev collect : Record → ℕ → List (List ℕ) → Bool × List (List ℕ)
collect r score s = (true, s ++ (r.loc ∷ []))

abbrev busy : Eq
busy = record { type = type_cpuload; op = op_ge; val = 40; start = 0; end = time_now }

abbrev result_table : Option (Outcome (Unit {0}) × (Table × List (List ℕ))) → Table
result_table none = one
result_table (some (o, p)) = p.0

abbrev found_run : Option (Outcome (Unit {0}) × (Table × List (List ℕ)))
found_run = Records.search collect 3 busy 10 (one, [])

search_run : found_run ≡ some (ok tt, (result_table found_run, codes "ab" ∷ []))
unfolding Records.search Records.search_locked Records.search_loop Records.record_read
    Records.take_record Records.visit Records.hit Records.deliver Records.wanted Records.op_match
    Defs.rdlock Defs.unlock Locators.loc_lookup time_lt time_match opened seek_head seek ensure
    ensure_loop fill left next readable data_new init reset len read make_room has_room realign
    copy_within take_in read_loop read_error trailingdata trailingspace headingdata append grow need
    load_next get16 get64 trim_head
search_run = refl

record_add-lock_example : Leaves (λ t. t) one (record_add 9 (measure 4 (codes "cd")) one)
record_add-lock_example = record_add-lock 9 (measure 4 (codes "cd")) one refl refl

search-lock_example : SearchLeaves one found_run
search-lock_example = search-lock collect 3 busy 10 one [] refl

record_add-search_example : record_add 9 (measure 6 (codes "cd")) (result_table found_run) ≡ none
record_add-search_example =
    record_add-search collect 3 busy 10 one (result_table found_run) [] (codes "ab" ∷ []) refl
      search_run 9 (measure 6 (codes "cd"))

opened_at_start : IsSound one.table
unfolding opened init data_new
opened_at_start = record { valid = omega arith; errnos = tt {0} }

-- The record of the table with its locator.
abbrev stored_record : Record
stored_record = record { time = 5; val = 42; locidx = 0; loc = codes "ab" }

one_locs : IsSound one.locs
unfolding opened init data_new
one_locs = record { valid = omega arith; errnos = tt {0} }

stored_locator : HasLocator one.locs.content one.locs.buf.size 0 (codes "ab")
unfolding opened init data_new
stored_locator = record {
  rest = replicate 8 0;
  at_offset = refl;
  in_half = omega arith;
  in_block = omega arith;
  in_range = omega arith;
}

busy_known : wanted busy stored_record ≡ some true
unfolding Records.wanted Records.op_match time_match time_lt
busy_known = refl

one-IsTable : IsTable busy (stored_record ∷ []) one
unfolding opened init data_new
one-IsTable = record {
  table_quiet = (opened_at_start, refl);
  locs_quiet = (one_locs, refl);
  room = omega arith;
  content = refl;
  stored = (
    record {
      time_u64 = omega arith;
      val_u64 = omega arith;
      locidx_u64 = omega arith;
      locator = stored_locator;
      in_file = omega arith;
      known = λ h. let e = busy_known in cc;
    },
    tt,
  );
  unlocked = refl;
}

search-selected_example :
    (u : Table) × (Records.search collect 2 busy 10 (one, [])
      ≡ some (
        answer
            (handed collect (selected busy 10 (stored_record ∷ [])) []).0
            (length (selected busy 10 (stored_record ∷ []))),
        (u, (handed collect (selected busy 10 (stored_record ∷ [])) []).1),
      ))
search-selected_example =
    search-selected collect (stored_record ∷ []) 2 busy 10 one [] (omega arith) one-IsTable

wanted_lem_example :
    ((wanted busy stored_record ≡ some true)
      × Inside busy stored_record.time
      × Meets busy stored_record.val)
    ⊎ (((wanted busy stored_record ≡ some false)
          × (Outside busy stored_record.time
              ⊎ (Inside busy stored_record.time × Misses busy stored_record.val)))
        ⊎ ((wanted busy stored_record ≡ none) × Inside busy stored_record.time × IsUnknown busy.op))
wanted_lem_example = wanted_lem busy stored_record (omega arith) (omega arith) (inl refl)
