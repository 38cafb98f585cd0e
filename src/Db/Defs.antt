-- ===== src/Db/Defs.antt =====
-- The state of kcndbd/kcndb_db.c and its locks: one table, of one type, with the base that the threads
-- share. The handles of other threads enter as the readers and the writer of the lock.
use kcn.Common.{
  ℕ, ◌+◌, ◌-◌, ◌^◌, ◌%◌, List, some, none, Bool, true, false, ltb, ◌==◌, if◌then◌else◌, ok, M,
}
use kcn.Common.Fallible.{E, ◌>>=◌, ◌>>◌, modify, focus, attempt, done}
use kcn.Buf.{Buf, putnull}
use kcn.File.{File, on_buf, size_get, append}

-- struct kcndb_db_record
pub record Record : Type 0 where
  pub time : ℕ
  pub val : ℕ
  pub locidx : ℕ
  pub loc : List ℕ

-- struct kcndb_db_table and the struct kcndb_db_base of its type, with the lock's holders
pub record Table : Type 0 where
  pub locs : File
  pub table : File
  pub locsize : ℕ
  pub tablesize : ℕ
  pub readers : ℕ
  pub writer : Bool

abbrev pub on_locs : {A : Type 0} → E File A → E Table A
on_locs m = focus (λ t. t.locs) (λ f t. record t { locs = f }) m

abbrev pub on_table : {A : Type 0} → E File A → E Table A
on_table m = focus (λ t. t.table) (λ f t. record t { table = f }) m

abbrev pub on_locs_buf : {A : Type 0} → M Buf A → E Table A
on_locs_buf m = on_locs (on_buf m)

abbrev pub on_table_buf : {A : Type 0} → M Buf A → E Table A
on_table_buf m = on_table (on_buf m)

-- A lock that is held by another waits; nobody gives it up before this thread goes on.
unfoldable pub rdlock : E Table (Unit {0})
rdlock t = if t.writer then none else some (ok tt, record t { readers = t.readers + 1 })

unfoldable pub wrlock : E Table (Unit {0})
wrlock t =
    if t.writer
    then none
    else if ltb 0 t.readers
    then none
    else some (ok tt, record t { writer = true })

-- pthread_rwlock_unlock() gives up the lock that the thread holds.
unfoldable pub unlock : E Table (Unit {0})
unlock t =
    if t.writer
    then some (ok tt, record t { writer = false })
    else some (ok tt, record t { readers = t.readers - 1 })

abbrev pub hashsiz : ℕ
hashsiz = 256

abbrev pub indexsiz : ℕ
indexsiz = 8

abbrev pub indextablesiz : ℕ
indextablesiz = 2048

unfoldable pub loc_size_increment : ℕ → E Table (Unit {0})
loc_size_increment n = modify (λ t. record t { locsize = (t.locsize + n) % 2 ^ 64 })

unfoldable pub table_size_increment : ℕ → E Table (Unit {0})
table_size_increment n = modify (λ t. record t { tablesize = (t.tablesize + n) % 2 ^ 64 })

-- kcndb_db_loc_init: an empty file gets a hash table without entries.
unfoldable pub loc_init : E Table (Unit {0})
unfolding loc_size_increment
loc_init t =
    if ltb 0 t.locsize
    then some (ok tt, t)
    else (do on_locs_buf (putnull indextablesiz); on_locs append; loc_size_increment indextablesiz)
        t

unfoldable pub locsize_read : E Table (Unit {0})
locsize_read t =
    if t.locsize == 0
    then (do n ← on_locs size_get; modify (λ u. record u { locsize = n })) t
    else some (ok tt, t)

unfoldable pub tablesize_read : E Table (Unit {0})
tablesize_read t =
    if t.tablesize == 0
    then (do n ← on_table size_get; modify (λ u. record u { tablesize = n })) t
    else some (ok tt, t)

-- kcndb_db_init
unfoldable pub init : E Table (Unit {0})
unfolding locsize_read tablesize_read loc_init
init = do locsize_read; tablesize_read; loc_init

-- kcndb_db_table_open from its lock on
unfoldable pub table_open : E Table (Unit {0})
unfolding wrlock init unlock
table_open = do wrlock; o ← attempt init; unlock; done o
