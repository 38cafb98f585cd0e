-- ===== src/Buf/Io.antt =====
-- lib/kcn_buf.c, lines 390-446: the loops around the system calls read() and write(). What
-- the calls answer enters as an argument.
use kcn.Common.{
  ℕ, List, [], ◌∷◌, some, M, ◌>>=◌, ◌>>◌, pure, modify, assert, ltb, if◌then◌else◌, ◌==◌, length,
  take, splice, eagain, eintr, eshutdown, ◌+◌,
}
use kcn.Buf.Defs.{Buf, len, append, trailingdata, trailingspace, realign, trim_head}

-- What one call of read() or write() answers: the bytes that it took, or -1 and errno.
pub data ReadResult : Type 0 where
  got : List ℕ → ReadResult
  failed : ℕ → ReadResult

pub data WriteResult : Type 0 where
  wrote : ℕ → WriteResult
  failed : ℕ → WriteResult

-- kcn_buf_error on the length and errno of a call; EWOULDBLOCK is EAGAIN on Linux.
unfoldable pub read_error : ReadResult → ℕ
read_error (ReadResult.got []) = eshutdown
read_error (ReadResult.got (x ∷ xs)) = 0
read_error (ReadResult.failed e) = e

unfoldable pub write_error : WriteResult → ℕ
write_error (WriteResult.wrote n) = if n == 0 then eshutdown else 0
write_error (WriteResult.failed e) = e

-- The loops around the calls, over the answers to come: an interrupted call is made again. Where
-- no answer is left the descriptor, which does not block, has nothing to give: EAGAIN.
unfoldable pub read_loop : List ReadResult → ReadResult × List ReadResult
unfolding read_error
read_loop [] = (ReadResult.failed eagain, [])
read_loop (r ∷ rs) = if read_error r == eintr then read_loop rs else (r, rs)

unfoldable pub write_loop : List WriteResult → WriteResult × List WriteResult
unfolding write_error
write_loop [] = (WriteResult.failed eagain, [])
write_loop (r ∷ rs) = if write_error r == eintr then write_loop rs else (r, rs)

-- The first lines of kcn_buf_read: room is made at the end of the block.
unfoldable pub has_room : M Buf (Unit {0})
has_room = do space ← trailingspace; assert (λ _. ltb 0 space)

unfoldable pub make_room : M Buf (Unit {0})
make_room = do space ← trailingspace; if space == 0 then realign >> has_room else pure tt

-- A call never stores more than the space that it was given.
unfoldable pub take_in : ReadResult → M Buf ℕ
take_in (ReadResult.failed e) = pure e
take_in (ReadResult.got []) = pure eshutdown
take_in (ReadResult.got (x ∷ xs)) = do
  space ← trailingspace
  let got = take space (x ∷ xs)
  modify (λ b. record b { bytes = splice b.bytes b.ep got })
  t ← trailingdata
  append (t + length got)
  pure 0

-- kcn_buf_read: 0 or the error, and the answers that are left.
unfoldable pub read : List ReadResult → M Buf (ℕ × List ReadResult)
read rs = do make_room; let (r, rest) = read_loop rs; e ← take_in r; pure (e, rest)

-- A call never takes more than it was offered.
unfoldable pub give_out : WriteResult → M Buf ℕ
give_out r b =
    let e = write_error r in
    elim r [
      | WriteResult.failed _ ↦ some (e, b)
      | WriteResult.wrote n ↦
          if e == 0 then (trim_head (Prim.Native.Nat.min n (len b)) >> pure 0) b else some (e, b)
    ]

unfoldable pub write : List WriteResult → M Buf (ℕ × List WriteResult)
write rs = do let (r, rest) = write_loop rs; e ← give_out r; pure (e, rest)
