-- ===== src/File/Writing.antt =====
-- What kcndb_file_write and kcndb_file_append write where every call does all that it is asked
-- (kcndbd/kcndb_file.c).
use kcn.Common.{
  ℕ, zero, suc, ◌+◌, ◌-◌, ◌^◌, ◌%◌, ◌≤◌, ◌<◌, ◌≡◌, refl, ap, ◌∙◌, List, [], ◌∷◌, ◌++◌, length, take,
  drop, some, none, true, false, ltb, leb, ◌==◌, if◌then◌else◌, inl, inr, Bool-cases, arith, ok,
  min, append-nil, take-all, drop-all,
}
use kcn.Common.State
use kcn.Common.Fallible.{◌>>◌, ◌>>=◌}
use kcn.Buf.{Buf, WriteResult, write, write_loop, write_error, give_out, len, reset}
use kcn.Buf.View.{IsValid, held, len_lem}
use kcn.Buf.Cursor.{length-held, trimmed, trim_head-trimmed}
use kcn.File.Defs.{
  File, next, left, writable, drain, write_all, write_out, overwrite, seek, seek_end, append,
}

write_loop-whole :
    (n : ℕ) → 0 < n → write_loop (WriteResult.wrote n ∷ []) ≡ (WriteResult.wrote n, [])
unfolding write_loop write_error
write_loop-whole n p = let e : (n == 0) ≡ false = ground arith in rw (write_loop, e) refl

give_out-whole :
    {b : Buf}
    → IsValid b
    → 0 < len b
    → give_out (WriteResult.wrote (len b)) b ≡ some (0, trimmed (len b) b)
unfolding give_out write_error
give_out-whole {b} v p =
    let e : (len b == 0) ≡ false = ground arith in
    let n : len b ≡ b.ep - b.sp = len_lem v in
    let (t, w) = trim_head-trimmed (len b) v (omega arith) in
    let same : min (len b) (len b) ≡ len b = omega arith in
    rw (give_out, e, same, State.◌>>◌, t) refl

-- A call that takes all the bytes of the buffer.
write-whole :
    {b : Buf}
    → IsValid b
    → 0 < len b
    → write (WriteResult.wrote (len b) ∷ []) b ≡ some ((0, []), trimmed (len b) b)
unfolding write
write-whole {b} v p =
    rw (write_loop-whole (len b) p, State.◌>>=◌, give_out-whole v p, write_loop-whole (len b) p)
      refl

-- The bytes of a buffer leave it for the file.
abbrev pub emptied : Buf → Buf
emptied b = record b { cp = 0; sp = 0; ep = 0 }

-- The file when `n` bytes are written at its offset.
abbrev drained : File → File
drained f = record f {
  buf = trimmed (len f.buf) f.buf;
  answers = [];
  offset = f.offset + len f.buf;
  content = overwrite f.offset (held f.buf) f.content;
}

drain-drained :
    (f : File) → IsValid f.buf → f.answers ≡ [] → 0 < len f.buf → drain f ≡ some (ok tt, drained f)
unfolding drain
drain-drained f v a p =
    let none_left : next f.answers ≡ none = ap next a ∙ (unfold next in refl) in
    let calls : writable (next f.answers) (len f.buf) ≡ WriteResult.wrote (len f.buf) =
      ap (λ o. writable o (len f.buf)) none_left ∙ (unfold writable in refl) in
    let n : f.buf.sp + len f.buf - f.buf.sp ≡ len f.buf = omega arith in
    let e : (len f.buf == 0) ≡ false = ground arith in
    let h : len f.buf ≡ f.buf.ep - f.buf.sp = len_lem v in
    let whole : take (len f.buf) (drop f.buf.sp f.buf.bytes) ≡ held f.buf = rw h refl in
    let gone : left f.answers ≡ [] = ap left a ∙ (unfold left in refl) in
    rw (drain, calls, write-whole v p, n, e, whole, gone) refl

len-drained : (f : File) → IsValid f.buf → len (trimmed (len f.buf) f.buf) ≡ 0
len-drained f v =
    let h : len f.buf ≡ f.buf.ep - f.buf.sp = len_lem v in
    let (t, w) = trim_head-trimmed (len f.buf) v (omega arith) in len_lem w ∙ omega arith

write_all_done : (fuel : ℕ) (f : File) → len f.buf ≡ 0 → write_all fuel f ≡ some (ok tt, f)
unfolding write_all
write_all_done zero f e = rw e refl
write_all_done (suc fuel) f e = rw e refl

write_all-drained :
    (fuel : ℕ) (f : File)
    → IsValid f.buf
    → f.answers ≡ []
    → 0 < len f.buf
    → len f.buf ≤ fuel
    → write_all fuel f ≡ some (ok tt, drained f)
unfolding write_all
write_all-drained zero f v a p h = absurd (omega arith)
write_all-drained (suc fuel) f v a p h =
    let e : ltb 0 (len f.buf) ≡ true = ground arith in
    rw (e, ◌>>◌, drain-drained f v a p) (write_all_done fuel (drained f) (len-drained f v))

-- The content after the bytes of the buffer are written, none leaving it as it is.
abbrev pub written : File → List ℕ
written f = if len f.buf == 0 then f.content else overwrite f.offset (held f.buf) f.content

abbrev pub flushed : File → File
flushed f = record f {
  buf = emptied f.buf;
  offset = f.offset + len f.buf;
  content = written f;
  answers = [];
}

pub write_out-flushed :
    (f : File) → IsValid f.buf → f.answers ≡ [] → write_out f ≡ some (ok tt, flushed f)
unfolding write_out reset
write_out-flushed f v a = elim (Bool-cases (ltb 0 (len f.buf))) [
  | inl e ↦
      let p : 0 < len f.buf = ground arith in
      let z : (len f.buf == 0) ≡ false = ground arith in
      rw (write_out, ◌>>◌, write_all-drained (len f.buf) f v a p (omega arith), z) refl
  | inr e ↦
      let z : len f.buf ≡ 0 = ground arith in
      rw (write_out, ◌>>◌, write_all_done (len f.buf) f z, z) (ground arith)
]

seek_end_lem :
    (f : File)
    → f.answers ≡ []
    → length f.content < 2 ^ 63
    → seek_end f ≡ some (ok tt, record f { offset = length f.content })
unfolding seek_end seek
seek_end_lem f a h =
    let none_left : next f.answers ≡ none = ap next a ∙ (unfold next in refl) in
    let e : leb (2 ^ 63) (length f.content) ≡ false = ground arith in
    rw (seek_end, seek, none_left, e) refl

overwrite-end : (p content : List ℕ) → overwrite (length content) p content ≡ content ++ p
unfolding overwrite
overwrite-end p content =
    let z : length content - length content ≡ 0 = omega arith in
    let gone : drop (length content + length p) content ≡ [] =
      drop-all (length content + length p) content (omega arith) in
    rw (overwrite, z, append-nil, gone, append-nil)
      (ap (λ r. r ++ p) (take-all (length content) content (omega arith)))

length-nil : (l : List ℕ) → length l ≡ 0 → l ≡ []
length-nil [] h = refl
length-nil (x ∷ l) h = absurd (omega arith)

written-end :
    (f : File)
    → IsValid f.buf
    → written (record f { offset = length f.content }) ≡ f.content ++ held f.buf
written-end f v = elim (Bool-cases (len f.buf == 0)) [
  | inl e ↦
      let z : length (held f.buf) ≡ 0 = ground (arith, length-held v, len_lem v) in
      rw (e, length-nil (held f.buf) z, append-nil) refl
  | inr e ↦ rw e (overwrite-end (held f.buf) f.content)
]

-- The file when the bytes of its buffer are appended.
abbrev pub appended : File → File
appended f = record f {
  size = (f.size + len f.buf) % 2 ^ 64;
  buf = emptied f.buf;
  content = f.content ++ held f.buf;
  offset = length f.content + len f.buf;
  answers = [];
}

-- Where every call does all that it is asked, on a valid buffer and a file of fewer than 2 ^ 63 bytes,
-- kcndb_file_append returns with success: the bytes of the buffer stand behind those of the file, which
-- are unchanged, the buffer is empty, the offset is the end, and the size has grown by their number.
pub append_lem :
    (f : File)
    → IsValid f.buf
    → f.answers ≡ []
    → length f.content < 2 ^ 63
    → append f ≡ some (ok tt, appended f)
unfolding append
append_lem f v a h =
    let g = record f { offset = length f.content } in
    rw (append, ◌>>◌, seek_end_lem f a h, ◌>>=◌, write_out-flushed g v a)
      (ap (λ c. some (ok tt, record (appended f) { content = c })) (written-end f v))
