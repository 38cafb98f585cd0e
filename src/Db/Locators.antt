-- ===== src/Db/Locators.antt =====
-- kcndb_db_loc_add and kcndb_db_loc_lookup (kcndbd/kcndb_db.c): the file of locators. It starts with a
-- table of offsets by hash value; at an offset stand a locator's length, its bytes and the offset
-- of the next one with its hash value.
use kcn.Common.{
  ℕ, zero, suc, ◌+◌, ◌*◌, List, [], ◌∷◌, length, take, drop, none, Bool, true, false, ltb, ◌==◌,
  ◌&&◌, if◌then◌else◌, enxio, add_size, sub_size,
}
use kcn.Common.Fallible.{E, ◌>>=◌, ◌>>◌, pure, fail, gets}
use kcn.Buf.{Buf, reset, forward, get16, get64, put16, put, put64, len, headingdata}
use kcn.File.{seek_head, ensure, append, write_out}
use kcn.Str.{str_hash}
use kcn.Db.Defs.{Table, on_locs, on_locs_buf, hashsiz, indexsiz, loc_size_increment}

-- strncmp() of the bytes at the cursor with the locator, which stops where both have a NUL.
unfoldable pub same_bytes : List ℕ → List ℕ → Bool
same_bytes xs [] = true
same_bytes [] (y ∷ ys) = false
same_bytes (x ∷ xs) (y ∷ ys) = if x == y then (if y == 0 then true else same_bytes xs ys) else false

unfoldable pub at_cursor : Buf → List ℕ → Bool
unfolding same_bytes
at_cursor b loc = same_bytes (drop b.cp b.bytes) loc

-- The body of the loop of kcndb_db_loc_add behind its test: the length of the locator at an offset,
-- and whether it is the one looked for; the cursor stays before the bytes that are.
unfoldable pub entry_at : ℕ → List ℕ → E Table Bool
unfolding at_cursor
entry_at idx loc = do
  on_locs (seek_head idx)
  on_locs_buf (reset 0)
  on_locs (ensure 2)
  n ← on_locs_buf get16
  on_locs (ensure (n + 8))
  b ← gets (λ t. t.locs.buf)
  if length loc == n && at_cursor b loc then pure true else (do on_locs_buf (forward n); pure false)

-- A round of the loop, with the rounds after it.
unfoldable pub chain_step : List ℕ → E Table ℕ → E Table ℕ
unfolding entry_at
chain_step loc rest = do
  idx ← on_locs_buf get64
  if idx == 0 then pure 0 else (do found ← entry_at idx loc; if found then pure idx else rest)

-- The loop: the offset of the locator, or 0 where the chain ends. `none` where the fuel ends: a chain
-- with a circle has no end.
unfoldable pub chain : ℕ → List ℕ → E Table ℕ
unfolding chain_step
chain zero loc = λ t. none
chain (suc fuel) loc = chain_step loc (chain fuel loc)

-- The rest of kcndb_db_loc_add for a locator that is not in its chain. In the code `idx` is 0 here.
unfoldable pub loc_append : List ℕ → E Table ℕ
unfolding loc_size_increment
loc_append loc = do
  h ← on_locs_buf headingdata
  let oidx = sub_size (add_size 0 h) 8
  idx ← gets (λ t. t.locsize)
  on_locs_buf (reset 0)
  on_locs_buf (put16 (length loc))
  on_locs_buf (put loc (length loc))
  on_locs_buf (put64 0)
  n ← gets (λ t. len t.locs.buf)
  on_locs append
  loc_size_increment n
  on_locs_buf (put64 idx)
  on_locs (seek_head oidx)
  on_locs write_out
  pure idx

unfoldable pub loc_add : ℕ → List ℕ → E Table ℕ
unfolding chain loc_append
loc_add fuel loc = do
  let h = str_hash loc (length loc) hashsiz
  on_locs_buf (reset 0)
  on_locs (seek_head 0)
  on_locs (ensure indexsiz)
  on_locs_buf (forward (indexsiz * h))
  idx ← chain fuel loc
  if idx == 0 then loc_append loc else pure idx

unfoldable pub loc_lookup : ℕ → E Table (List ℕ)
loc_lookup idx = do
  size ← gets (λ t. t.locsize)
  if ltb size idx then fail enxio else (do
    on_locs_buf (reset 0)
    on_locs (seek_head idx)
    on_locs (ensure 2)
    n ← on_locs_buf get16
    on_locs (ensure n)
    b ← gets (λ t. t.locs.buf)
    pure (take n (drop b.cp b.bytes)))
