-- ===== src/File/Fill.antt =====
-- One call of kcn_buf_read on a file (kcndbd/kcndb_file.c): what is to come stays the same.
use kcn.Common.{
  eshutdown, ℕ, zero, suc, ◌+◌, ◌-◌, ◌≤◌, ◌<◌, ◌≡◌, ◌≢◌, refl, ap, ◌∙◌, List, [], ◌∷◌, ◌++◌, length,
  take, drop, Option, some, none, false, ◌==◌, ◌⊎◌, inl, inr, Bool-cases, arith, Outcome, ok, bad,
  eagain, eintr, length-append, drop-drop, append_assoc, All, take-nil,
}
use kcn.Buf.{Buf, ReadResult, read_loop, read_error, len}
use kcn.Buf.Load.{length-ahead}
use kcn.Buf.View.{IsValid, held, ahead, len_lem}
use kcn.Buf.Cursor.{length-held}
use kcn.Buf.Transfer.{HasRoom, space, received, read_lem}
use kcn.File.Defs.{File, Answer, up_to, fails, next, left, readable, fill}

-- What is still to come from a file: the bytes in its buffer, then those at its offset.
abbrev pub unread : File → List ℕ
unread f = held f.buf ++ drop f.offset f.content

==_neq : (a b : ℕ) → a ≢ b → (a == b) ≡ false
==_neq a b h = ground arith

take-rest : (n : ℕ) (ys : List ℕ) → take n ys ++ drop (length (take n ys)) ys ≡ ys
take-rest zero ys = refl
take-rest (suc n) [] = refl
take-rest (suc n) (y ∷ ys) = ap (λ r. y ∷ r) (take-rest n ys)

take-take-rest :
    (n m : ℕ) (ys : List ℕ) → take n (take m ys) ++ drop (length (take n (take m ys))) ys ≡ ys
take-take-rest zero m ys = refl
take-take-rest (suc n) zero ys = refl
take-take-rest (suc n) (suc m) [] = refl
take-take-rest (suc n) (suc m) (y ∷ ys) = ap (λ r. y ∷ r) (take-take-rest n m ys)

-- What a call gives is at the front of what stands at the offset.
readable-rest :
    (a : Option Answer) (n : ℕ) (f : File)
    → received n (readable a f)
        ++ drop (length (received n (readable a f))) (drop f.offset f.content)
      ≡ drop f.offset f.content
unfolding readable
readable-rest none n f = take-rest n (drop f.offset f.content)
readable-rest (some (up_to m)) n f = take-take-rest n m (drop f.offset f.content)
readable-rest (some (fails e)) n f = refl

read_loop-one :
    (r : ReadResult)
    → ((read_loop (r ∷ [])).0 ≡ r) ⊎ ((read_loop (r ∷ [])).0 ≡ ReadResult.failed eagain)
unfolding read_loop
read_loop-one r = elim (Bool-cases (read_error r == eintr)) [
  | inl e ↦ inr (rw e refl)
  | inr e ↦ inl (rw e refl)
]

loop-rest :
    (a : Option Answer) (n : ℕ) (f : File)
    → (let xs = received n (read_loop (readable a f ∷ [])).0 in
        xs ++ drop (length xs) (drop f.offset f.content))
      ≡ drop f.offset f.content
loop-rest a n f = elim (read_loop-one (readable a f)) [
  | inl e ↦ rw e (readable-rest a n f)
  | inr e ↦ rw e refl
]

-- A call that fails has an errno.
abbrev pub IsAnswer : Answer → Type 0
IsAnswer (up_to n) = Unit
IsAnswer (fails e) = e ≢ 0

abbrev IsReply : Option Answer → Type 0
IsReply none = Unit
IsReply (some a) = IsAnswer a

-- A call gives a byte or fails.
abbrev Progress : ReadResult → ℕ → Type 0
Progress r n =
    ((read_error r ≡ 0) × (0 < length (received n r)))
    ⊎ (((read_error r == 0) ≡ false) × (received n r ≡ []))

Progress-got : (ys : List ℕ) (n : ℕ) → 0 < n → Progress (ReadResult.got ys) n
unfolding read_error
Progress-got [] n p = inr (refl, take-nil n)
Progress-got (x ∷ xs) zero p = absurd (omega arith)
Progress-got (x ∷ xs) (suc n) p = inl (refl, omega arith)

Progress-readable :
    (a : Option Answer) (f : File) (n : ℕ) → IsReply a → 0 < n → Progress (readable a f) n
unfolding readable read_error
Progress-readable none f n h p = Progress-got (drop f.offset f.content) n p
Progress-readable (some (up_to m)) f n h p = Progress-got (take m (drop f.offset f.content)) n p
Progress-readable (some (fails e)) f n h p = inr (==_neq e 0 h, refl)

progress :
    (a : Option Answer) (f : File) (n : ℕ)
    → IsReply a
    → 0 < n
    → Progress (read_loop (readable a f ∷ [])).0 n
progress a f n h p = elim (read_loop-one (readable a f)) [
  | inl e ↦ rw e (Progress-readable a f n h p)
  | inr e ↦ rw e (unfold read_error in inr (refl, refl))
]

next-IsReply : (l : List Answer) → All IsAnswer l → IsReply (next l)
unfolding next
next-IsReply [] h = tt
next-IsReply (a ∷ l) (h, k) = h

left-IsAnswer : (l : List Answer) → All IsAnswer l → All IsAnswer (left l)
unfolding left
left-IsAnswer [] h = tt
left-IsAnswer (a ∷ l) (h, k) = k

-- A file whose buffer is in order and whose failing calls have an errno.
pub record IsSound (f : File) : Type 0 where
  pub valid : IsValid f.buf
  pub errnos : All IsAnswer f.answers

-- The file when its buffer has become `b`.
abbrev filled : File → Buf → File
filled f b = record f { buf = b; answers = left f.answers; offset = f.offset + (len b - len f.buf) }

len-moved :
    {b c : Buf} (xs : List ℕ)
    → IsValid b
    → IsValid c
    → held c ≡ held b ++ xs
    → len c - len b ≡ length xs
len-moved {b} {c} xs v w h =
    let n : length (held c) ≡ length (held b) + length xs =
      ap (λ (l : List ℕ). length l) h ∙ length-append (held b) xs in
    omega (arith, len_lem v, len_lem w, length-held v, length-held w)

unread-filled :
    (f : File) {b : Buf} (xs : List ℕ)
    → IsValid f.buf
    → IsValid b
    → held b ≡ held f.buf ++ xs
    → xs ++ drop (length xs) (drop f.offset f.content) ≡ drop f.offset f.content
    → unread (filled f b) ≡ unread f
unread-filled f {b} xs v w h r = rw (len-moved xs v w h, h, append_assoc, ← drop-drop, r) refl

-- Why a call fails: the file has no byte left and the error is ESHUTDOWN, or the system had an answer
-- ready.
abbrev pub Cause : ℕ → File → Type 0
Cause e f = ((e ≡ eshutdown) × (drop f.offset f.content ≡ [])) ⊎ (0 < length f.answers)

failure-got :
    (ys : List ℕ)
    → (read_error (read_loop (ReadResult.got ys ∷ [])).0 == 0) ≡ false
    → (read_error (read_loop (ReadResult.got ys ∷ [])).0 ≡ eshutdown) × (ys ≡ [])
unfolding read_loop read_error
failure-got [] h = (refl, refl)
failure-got (x ∷ xs) h = ground arith

failure :
    (f : File) (l : List Answer)
    → f.answers ≡ l
    → (read_error (read_loop (readable (next l) f ∷ [])).0 == 0) ≡ false
    → Cause (read_error (read_loop (readable (next l) f ∷ [])).0) f
unfolding next readable
failure f [] a h = inl (failure-got (drop f.offset f.content) h)
failure f (x ∷ l) a h = inr (rw a (omega arith))

length-left : (l : List Answer) → length (left l) ≤ length l
unfolding left
length-left [] = omega arith
length-left (a ∷ l) = omega arith

-- One call: what is to come stays the same, and either a byte moves into the buffer or the call has
-- failed.
pub fill_lem :
    {f : File}
    → IsSound f
    → HasRoom f.buf
    → (f' : File) × (o : Outcome (Unit {0})) × (fill f ≡ some (o, f'))
      × IsSound f'
      × (unread f' ≡ unread f)
      × (f'.content ≡ f.content)
      × (f'.buf.size ≡ f.buf.size)
      × (length f'.answers ≤ length f.answers)
      × (f'.buf.cp - f'.buf.sp ≡ f.buf.cp - f.buf.sp)
      × (((o ≡ ok tt) × (length (held f.buf) < length (held f'.buf)))
          ⊎ ((e : ℕ) × (o ≡ bad e) × Cause e f))
unfolding fill
fill_lem {f} s h =
    let q = read_loop (readable (next f.answers) f ∷ []) in
    let (b, r, w, hh, aa, p, z) = read_lem (readable (next f.answers) f ∷ []) s.valid h in
    let xs = received (space f.buf) q.0 in
    let same : unread (filled f b) ≡ unread f =
      unread-filled f xs s.valid w hh (loop-rest (next f.answers) (space f.buf) f) in
    let sound : IsSound (filled f b) = record {
      valid = w;
      errnos = left-IsAnswer f.answers s.errnos;
    } in
    let n : length (held b) ≡ length (held f.buf) + length xs =
      ap (λ (l : List ℕ). length l) hh ∙ length-append (held f.buf) xs in
    let before : b.cp - b.sp ≡ f.buf.cp - f.buf.sp = omega (
      arith,
      n,
      ap (λ (l : List ℕ). length l) aa ∙ length-append (ahead f.buf) xs,
      length-held w,
      length-ahead w,
      length-held s.valid,
      length-ahead s.valid,
    ) in
    elim (progress (next f.answers) f (space f.buf) (next-IsReply f.answers s.errnos) p) [
      | inl (e, l) ↦ (
        filled f b,
        ok tt,
        rw (fill, r, e) refl,
        sound,
        same,
        refl,
        z,
        length-left f.answers,
        before,
        inl (refl, omega arith),
      )
      | inr (e, l) ↦ (
        filled f b,
        bad (read_error q.0),
        rw (fill, r, e) refl,
        sound,
        same,
        refl,
        z,
        length-left f.answers,
        before,
        inr (read_error q.0, refl, failure f f.answers refl e),
      )
    ]
