-- ===== src/Db/Storing/State.antt =====
-- The tables that kcndb_db_record_add finds and leaves (kcndbd/kcndb_db.c).
use kcn.Common.{
  ℕ, ◌+◌, ◌*◌, ◌^◌, ◌≤◌, ◌<◌, ◌≡◌, ◌≢◌, List, [], ◌∷◌, ◌++◌, length, none, false, arith, IsU64, All,
}
use kcn.Eq.{Eq, time_lt}
use kcn.Db.Defs.{Record, Table, indextablesiz}
use kcn.Db.Records.{wanted}
use kcn.Db.Selection.{IsStored, AllStored, IsTable}
use kcn.Db.Chains.Append.{linked}
use kcn.Db.Chains.Slots.{PointsTo}
use kcn.Db.Chains.Walk.{NotNul}
use kcn.Db.Chains.Add.{IsLocFile, hash}
use kcn.Db.Chains.Naming.{kept_locator, IsTablePlace}
use kcn.Db.Storing.Last.{IsIdle, Fits, latest}

-- A locator stands behind the table of offsets.
abbrev pub Behind : Record → Type 0
Behind r = indextablesiz ≤ r.locidx

-- A table with the records `rs` that nobody uses, between two additions.
pub record IsStore (ke : Eq) (rs : List Record) (t : Table) : Type 0 where
  pub idle : IsIdle t rs
  pub locs : IsLocFile t
  pub stored : AllStored ke t.locs.content t.locs.buf.size t.locsize rs
  pub behind : All Behind rs
  pub unlocked : t.writer ≡ false
  pub alone : t.readers ≡ 0

-- A search can read it.
pub IsStore-IsTable : (ke : Eq) (rs : List Record) (t : Table) → IsStore ke rs t → IsTable ke rs t
IsStore-IsTable ke rs t s = record {
  table_quiet = s.idle.quiet;
  locs_quiet = s.locs.quiet;
  room = omega (arith, s.idle.block);
  content = s.idle.content;
  stored = s.stored;
  unlocked = s.unlocked;
}

pub AllStored-Fits :
    (ke : Eq) (c : List ℕ) (n k : ℕ) (rs : List Record) → AllStored ke c n k rs → All Fits rs
AllStored-Fits ke c n k [] h = tt
AllStored-Fits ke c n k (r ∷ rs) (h, hs) =
    ((h.time_u64, (h.val_u64, h.locidx_u64)), AllStored-Fits ke c n k rs hs)

-- The records that were there and one more are in the file that has a locator more.
pub AllStored-added :
    (ke : Eq) (l c : List ℕ) (o n k k' : ℕ) (rs : List Record) (r : Record)
    → IsTablePlace o c
    → k ≤ k'
    → AllStored ke c n k rs
    → All Behind rs
    → IsStored ke (linked l o c) n k' r
    → AllStored ke (linked l o c) n k' (rs ++ (r ∷ []))
AllStored-added ke l c o n k k' [] r p m h b new = (new, tt)
AllStored-added ke l c o n k k' (x ∷ rs) r p m (h, hs) (b, bs) new = (
  record {
    time_u64 = h.time_u64;
    val_u64 = h.val_u64;
    locidx_u64 = h.locidx_u64;
    locator = kept_locator l x.loc o x.locidx n c p b h.locator;
    in_file = omega (arith, h.in_file);
    known = h.known;
  },
  AllStored-added ke l c o n k k' rs r p m hs bs new,
)

pub Behind-added :
    (rs : List Record) (r : Record) → All Behind rs → Behind r → All Behind (rs ++ (r ∷ []))
Behind-added [] r b h = (h, tt)
Behind-added (x ∷ rs) r (b, bs) h = (b, Behind-added rs r bs h)

-- A record that can be added: its locator is a string for which there is room and whose hash value has
-- no chain yet, its numbers fit, it is not older than the last one, and the files do not grow past an
-- offset.
pub record IsNew (ke : Eq) (rs : List Record) (r : Record) (t : Table) : Type 0 where
  pub free : PointsTo t.locs.content (hash r.loc) 0
  pub plain : All NotNul r.loc
  pub in_half : length r.loc < 2 ^ 16
  pub room : length r.loc + 10 ≤ t.locs.buf.size
  pub short : length t.locs.content + length r.loc + 10 < 2 ^ 63
  pub short_table : 24 * length rs + 24 < 2 ^ 63
  pub time_u64 : IsU64 r.time
  pub val_u64 : IsU64 r.val
  pub known : wanted ke r ≢ none
  pub in_order : time_lt r.time (latest rs) ≡ false

-- The record as it is stored: kcndb_db_loc_add gives the place of its locator.
abbrev pub placed : Record → Table → Record
placed r t = record r { locidx = length t.locs.content }
