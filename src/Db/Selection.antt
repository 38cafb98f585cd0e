-- ===== src/Db/Selection.antt =====
-- What a search of kcndbd/kcndb_db.c selects, and the tables that it reads.
use kcn.Common.{
  ℕ, zero, suc, ◌+◌, ◌≤◌, ◌≡◌, ◌≢◌, refl, ap, ◌∙◌, List, [], ◌∷◌, ◌++◌, length, length-append, drop,
  Option, some, none, Bool, true, false, inl, inr, ◌==◌, if◌then◌else◌, IsU64, Outcome, ok, bad,
  arith, eshutdown, esrch,
}
use kcn.Common.Fallible.{◌>>◌}
use kcn.Eq.{Eq}
use kcn.Buf.View.{held}
use kcn.File.{File, Answer}
use kcn.File.Fill.{unread}
use kcn.File.Reading.{ensure_lem}
use kcn.Db.Defs.{Record, Table, rdlock}
use kcn.Db.Lookup.{HasLocator, IsQuiet}
use kcn.Db.Reading.{record_bytes}
use kcn.Db.Records.{wanted, record_read}

-- A record that matches is selected, where one more is asked for.
abbrev pub select : Option Bool → Record → List Record → List Record → List Record
select none r others rest = others
select (some false) r others rest = others
select (some true) r others rest = r ∷ rest

-- The records that match a condition, in their order, the first `k` of them at most.
abbrev pub selected : Eq → ℕ → List Record → List Record
selected ke zero rs = []
selected ke (suc k) [] = []
selected ke (suc k) (r ∷ rs) = select (wanted ke r) r (selected ke (suc k) rs) (selected ke k rs)

-- What a search answers for a number of records that were handed over, or where the callback gave up.
abbrev pub answer : Bool → ℕ → Outcome (Unit {0})
answer b n = if b then (if n == 0 then bad esrch else ok tt) else bad 0

abbrev pub counted : Bool → ℕ → Outcome ℕ
counted b n = if b then ok n else bad 0

abbrev pub all_bytes : List Record → List ℕ
all_bytes [] = []
all_bytes (r ∷ rs) = record_bytes r ++ all_bytes rs

-- A record fits its 24 bytes, its locator is in the file of locators, and the operator of the condition
-- is a known one.
pub record IsStored (ke : Eq) (content : List ℕ) (n locsize : ℕ) (r : Record) : Type 0 where
  pub time_u64 : IsU64 r.time
  pub val_u64 : IsU64 r.val
  pub locidx_u64 : IsU64 r.locidx
  pub locator : HasLocator content n r.locidx r.loc
  pub in_file : r.locidx ≤ locsize
  pub known : wanted ke r ≢ none

abbrev pub AllStored : Eq → List ℕ → ℕ → ℕ → List Record → Type 0
AllStored ke content n locsize [] = Unit {0}
AllStored ke content n locsize (r ∷ rs) =
    IsStored ke content n locsize r × AllStored ke content n locsize rs

-- A table whose calls of the system do all they can and whose records to come are `rs`.
pub record Holds (ke : Eq) (rs : List Record) (t : Table) : Type 0 where
  pub table_quiet : IsQuiet t.table
  pub locs_quiet : IsQuiet t.locs
  pub room : 24 ≤ t.table.buf.size
  pub cursor : t.table.buf.cp ≡ t.table.buf.sp
  pub to_come : unread t.table ≡ all_bytes rs
  pub stored : AllStored ke t.locs.content t.locs.buf.size t.locsize rs

-- At the end of the file the reading fails with ESHUTDOWN.
pub record_read_end :
    {t : Table}
    → IsQuiet t.table
    → 24 ≤ t.table.buf.size
    → unread t.table ≡ []
    → (f : File) × (record_read t ≡ some (bad eshutdown, record t { table = f }))
unfolding record_read
record_read_end {t} q z u =
    let (f, o, e, (s, v, _, _, _, _, w)) = ensure_lem 24 q.0 z in
    elim w [
      | inl (b, many) ↦ absurd (
          omega (
            arith,
            ap (λ (l : List ℕ). length l) (v ∙ u),
            length-append (held f.buf) (drop f.offset f.content),
          ))
      | inr (x, b, short) ↦ elim short [
        | inl (y, _) ↦ (f, rw (record_read, ◌>>◌, e, b, y) refl)
        | inr y ↦ absurd (omega (arith, ap (λ (l : List Answer). length l) q.1))
      ]
    ]

-- A table that holds the records `rs`: its file of records is their bytes, nobody writes to it, and the
-- calls of the system do all they can.
pub record IsTable (ke : Eq) (rs : List Record) (t : Table) : Type 0 where
  pub table_quiet : IsQuiet t.table
  pub locs_quiet : IsQuiet t.locs
  pub room : 24 ≤ t.table.buf.size
  pub content : t.table.content ≡ all_bytes rs
  pub stored : AllStored ke t.locs.content t.locs.buf.size t.locsize rs
  pub unlocked : t.writer ≡ false

pub rdlock_free :
    (t : Table) → t.writer ≡ false → rdlock t ≡ some (ok tt, record t { readers = t.readers + 1 })
unfolding rdlock
rdlock_free t h = rw h refl

pub none_left : (l : List Answer) → length l ≡ 0 → l ≡ []
none_left [] h = refl
none_left (a ∷ l) h = absurd (omega arith)
