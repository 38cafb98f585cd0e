-- ===== src/Db/Records.antt =====
-- kcndb_db_record_add and kcndb_db_search (kcndbd/kcndb_db.c): the file of records, each a time, a value
-- and the offset of a locator. The callback of a search is a function on the state of its caller.
use kcn.Common.{
  ℕ, zero, suc, ◌+◌, ◌-◌, [], Option, some, none, Bool, true, false, not, ltb, leb, ◌==◌,
  if◌then◌else◌, Outcome, ok, bad, erange, esrch, eshutdown,
}
use kcn.Common.Fallible.{E, ◌>>=◌, ◌>>◌, pure, fail, gets, focus, attempt, done}
use kcn.Buf.{reset, get64, put64, headingdata, trim_head}
use kcn.File.{seek_head, ensure, append}
use kcn.Eq.{Eq, time_lt, time_match, op_lt, op_le, op_eq, op_gt, op_ge}
use kcn.Db.Defs.{
  Record, Table, on_table, on_table_buf, rdlock, wrlock, unlock, table_size_increment,
}
use kcn.Db.Locators.{loc_add, loc_lookup}

abbrev pub recordsiz : ℕ
recordsiz = 24

unfoldable pub record_read : E Table Record
record_read = do
  on_table (ensure recordsiz)
  t ← on_table_buf get64
  v ← on_table_buf get64
  i ← on_table_buf get64
  h ← on_table_buf headingdata
  on_table_buf (trim_head h)
  pure (record { time = t; val = v; locidx = i; loc = [] })

-- kcndb_db_record_read_last
unfoldable pub record_read_last : E Table Record
unfolding record_read
record_read_last = do
  size ← gets (λ t. t.tablesize)
  if ltb size recordsiz
      then pure (record { time = 0; val = 0; locidx = 0; loc = [] })
      else (do on_table (seek_head (size - recordsiz)); record_read)

-- The part of kcndb_db_record_add that writes the record.
unfoldable pub record_put : Record → ℕ → E Table (Unit {0})
unfolding table_size_increment
record_put r idx = do
  on_table_buf (put64 r.time)
  on_table_buf (put64 r.val)
  on_table_buf (put64 idx)
  on_table append
  table_size_increment recordsiz

-- The part of kcndb_db_record_add under the lock; `fuel` bounds the chain of locators. The result is
-- the offset of the locator, which the code stores in the record of its caller.
unfoldable pub record_add_locked : ℕ → Record → E Table ℕ
unfolding record_read_last record_put
record_add_locked fuel r = do
  last ← record_read_last
  if time_lt r.time last.time
      then fail erange
      else (do idx ← loc_add fuel r.loc; record_put r idx; pure idx)

unfoldable pub record_add : ℕ → Record → E Table ℕ
unfolding wrlock record_add_locked unlock
record_add fuel r = do wrlock; o ← attempt (record_add_locked fuel r); unlock; done o

-- The switch of kcndb_db_search; `none` is the assertion that fails on another operator.
unfoldable pub op_match : Eq → ℕ → Option Bool
op_match ke v =
    if ke.op == op_lt
    then some (not (leb ke.val v))
    else if ke.op == op_le
    then some (not (ltb ke.val v))
    else if ke.op == op_eq
    then some (v == ke.val)
    else if ke.op == op_gt
    then some (not (leb v ke.val))
    else if ke.op == op_ge
    then some (not (ltb v ke.val))
    else none

-- Whether a record is wanted: its time first, then its value.
unfoldable pub wanted : Eq → Record → Option Bool
unfolding op_match
wanted ke r = if time_match r.time ke then op_match ke r.val else some false

module _ {S : Type 0} (cb : Record → ℕ → S → Bool × S) where
  abbrev pub on_db : {A : Type 0} → E Table A → E (Table × S) A
  on_db m = focus (λ p. p.0) (λ t p. (t, p.1)) m

  -- The callback; a search fails without an errno of its own where it answers false.
  unfoldable pub deliver : Record → ℕ → E (Table × S) (Unit {0})
  deliver r score (t, s) =
      let (b, s') = cb r score s in if b then some (ok tt, (t, s')) else some (bad 0, (t, s'))

  -- A wanted record is looked up and delivered.
  unfoldable pub hit : Record → E (Table × S) (Unit {0})
  unfolding deliver
  hit r = do l ← on_db (loc_lookup r.locidx); deliver (record r { loc = l }) 0

  -- What a round of the loop does with a record that is wanted or not, with the rounds after it.
  unfoldable pub visit : Option Bool → Record → E (Table × S) ℕ → E (Table × S) ℕ → E (Table × S) ℕ
  unfolding hit
  visit none r next more = λ p. none
  visit (some false) r next more = next
  visit (some true) r next more = hit r >> more

  -- What it does with the outcome of the reading: the end of the file ends the loop.
  unfoldable pub take_record :
      Eq → ℕ → Outcome Record → E (Table × S) ℕ → E (Table × S) ℕ → E (Table × S) ℕ
  unfolding visit wanted
  take_record ke n (bad e) next more = if e == eshutdown then pure n else fail e
  take_record ke n (ok r) next more = visit (wanted ke r) r next more

  -- The loop of kcndb_db_search with `n` matches so far: the number of matches. Each round reads a
  -- record, so the fuel is enough that exceeds the number of records.
  unfoldable pub search_loop : ℕ → Eq → ℕ → ℕ → E (Table × S) ℕ
  unfolding take_record
  search_loop zero ke max n = λ p. none
  search_loop (suc fuel) ke max n =
      let next = search_loop fuel ke max n in
      let more = search_loop fuel ke max (n + 1) in
      if ltb n max
      then (do o ← attempt (on_db record_read); take_record ke n o next more)
      else pure n

  unfoldable pub search_locked : ℕ → Eq → ℕ → E (Table × S) (Unit {0})
  unfolding search_loop
  search_locked fuel ke max = do
    on_db (on_table (seek_head 0))
    on_db (on_table_buf (reset 0))
    n ← search_loop fuel ke max 0
    if n == 0 then fail esrch else pure tt

  -- kcndb_db_search: only the failing path gives up the lock.
  unfoldable pub search : ℕ → Eq → ℕ → E (Table × S) (Unit {0})
  unfolding search_locked
  search fuel ke max = do
    on_db rdlock
    o ← attempt (search_locked fuel ke max)
    elim o [ ok u ↦ pure tt | bad e ↦ (do on_db unlock; fail e) ]
