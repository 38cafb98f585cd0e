-- ===== src/File/Defs.antt =====
-- The definitions of kcndbd/kcndb_file.c. The operating system is the bytes of the file, the offset of
-- the descriptor and the answers that it has ready; descriptors and paths are left out.
use kcn.Common.{
  ℕ, zero, suc, ◌+◌, ◌-◌, ◌^◌, ◌%◌, List, [], ◌∷◌, ◌++◌, length, take, drop, replicate, Option,
  some, none, ltb, leb, ◌==◌, if◌then◌else◌, min, ok, bad, einval, M,
}
use kcn.Common.Fallible.{E, ◌>>=◌, ◌>>◌, gets, modify, lift}
use kcn.Buf.{Buf, ReadResult, WriteResult, data_new, init, len, reset, read, write}

-- How a system call goes: it does all that it can, at most a number of bytes of it, or it fails with
-- an errno. Calls that a signal interrupts are made again by kcn_buf_read and kcn_buf_write and do
-- not count. A system that has no answer ready does all that it can.
pub data Answer : Type 0 where
  up_to : ℕ → Answer
  fails : ℕ → Answer

-- struct kcndb_file, with the state of its descriptor
pub record File : Type 0 where
  pub size : ℕ
  pub buf : Buf
  pub content : List ℕ
  pub offset : ℕ
  pub answers : List Answer

abbrev pub bufsiz : ℕ
bufsiz = 4096

abbrev pub set_buf : Buf → File → File
set_buf b f = record f { buf = b }

abbrev pub on_buf : {A : Type 0} → M Buf A → E File A
on_buf m = lift (λ f. f.buf) set_buf m

unfoldable pub next : List Answer → Option Answer
next [] = none
next (a ∷ l) = some a

unfoldable pub left : List Answer → List Answer
left [] = []
left (a ∷ l) = l

-- kcndb_file_new and kcndb_file_open: the block that malloc() gives, and the bytes of the file.
unfoldable pub opened : List ℕ → List ℕ → List Answer → File
opened block content answers = record {
  size = 0;
  buf = init (data_new block);
  content = content;
  offset = 0;
  answers = answers;
}

-- fstat()
unfoldable pub size_get : E File ℕ
unfolding next left
size_get f = elim (next f.answers) [
  | some (fails e) ↦ some (bad e, record f { answers = left f.answers })
  | some (up_to n) ↦ some (ok (length f.content), record f { answers = left f.answers })
  | none ↦ some (ok (length f.content), f)
]

-- read() at the offset, as kcn_buf_read gets it.
unfoldable pub readable : Option Answer → File → ReadResult
readable none f = ReadResult.got (drop f.offset f.content)
readable (some (up_to n)) f = ReadResult.got (take n (drop f.offset f.content))
readable (some (fails e)) f = ReadResult.failed e

-- kcn_buf_read on the file. What was read is what the end of the data has moved by, from where a
-- buffer that is realigned has it.
unfoldable pub fill : E File (Unit {0})
unfolding next left readable
fill f = elim (read (readable (next f.answers) f ∷ []) f.buf) [
  | none ↦ none
  | some ((e, _), b) ↦
      let f' = record f {
        buf = b;
        answers = left f.answers;
        offset = f.offset + (len b - len f.buf);
      } in
      if e == 0 then some (ok tt, f') else some (bad e, f')
]

-- The loop of kcndb_file_ensure; a call that succeeds adds a byte, so `n` rounds do.
unfoldable pub ensure_loop : ℕ → ℕ → E File (Unit {0})
unfolding fill
ensure_loop zero n f = if ltb (len f.buf) n then none else some (ok tt, f)
ensure_loop (suc fuel) n f =
    let rest = ensure_loop fuel n in if ltb (len f.buf) n then (fill >> rest) f else some (ok tt, f)

unfoldable pub ensure : ℕ → E File (Unit {0})
unfolding ensure_loop
ensure n = ensure_loop n n

-- lseek() from the head or from the end; an off_t is signed.
unfoldable pub seek : ℕ → E File (Unit {0})
unfolding next left
seek target f = elim (next f.answers) [
  | some (fails e) ↦ some (bad e, record f { answers = left f.answers })
  | some (up_to n) ↦
      if leb (2 ^ 63) target
      then some (bad einval, record f { answers = left f.answers })
      else some (ok tt, record f { answers = left f.answers; offset = target })
  | none ↦
      if leb (2 ^ 63) target
      then some (bad einval, f)
      else some (ok tt, record f { offset = target })
]

unfoldable pub seek_head : ℕ → E File (Unit {0})
unfolding seek
seek_head off = seek off

unfoldable pub seek_end : E File (Unit {0})
unfolding seek
seek_end f = seek (length f.content) f

-- The bytes of a file after `p` is written at an offset; a gap before it is filled with zeros.
unfoldable pub overwrite : ℕ → List ℕ → List ℕ → List ℕ
overwrite off p content =
    take off (content ++ replicate (off - length content) 0) ++ p ++ drop (off + length p) content

-- write() of `n` bytes
unfoldable pub writable : Option Answer → ℕ → WriteResult
writable none n = WriteResult.wrote n
writable (some (up_to k)) n = WriteResult.wrote (min k n)
writable (some (fails e)) n = WriteResult.failed e

-- kcn_buf_write on the file. What was written is what the start of the data has moved by.
unfoldable pub drain : E File (Unit {0})
unfolding next left writable overwrite
drain f = elim (write (writable (next f.answers) (len f.buf) ∷ []) f.buf) [
  | none ↦ none
  | some ((e, _), b) ↦
      let n = b.sp - f.buf.sp in
      let f' = record f {
        buf = b;
        answers = left f.answers;
        offset = f.offset + n;
        content =
            if n == 0
            then f.content
            else overwrite f.offset (take n (drop f.buf.sp f.buf.bytes)) f.content;
      } in
      if e == 0 then some (ok tt, f') else some (bad e, f')
]

-- The loop of kcndb_file_write; a call that succeeds takes a byte, so as many rounds do as there
-- are bytes.
unfoldable pub write_all : ℕ → E File (Unit {0})
unfolding drain
write_all zero f = if ltb 0 (len f.buf) then none else some (ok tt, f)
write_all (suc fuel) f =
    let rest = write_all fuel in if ltb 0 (len f.buf) then (drain >> rest) f else some (ok tt, f)

-- kcndb_file_write
unfoldable pub write_out : E File (Unit {0})
unfolding write_all
write_out = do n ← gets (λ f. len f.buf); write_all n; on_buf (reset 0)

-- kcndb_file_append
unfoldable pub append : E File (Unit {0})
unfolding seek_end write_out
append = do
  seek_end
  n ← gets (λ f. len f.buf)
  write_out
  modify (λ f. record f { size = (f.size + n) % 2 ^ 64 })
