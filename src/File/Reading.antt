-- ===== src/File/Reading.antt =====
-- What kcndb_file_ensure reads (kcndbd/kcndb_file.c).
use kcn.Common.{
  ◌-◌, eshutdown, ℕ, zero, suc, ◌+◌, ◌≤◌, ◌<◌, ◌≡◌, refl, sym, ap, ◌∙◌, List, length, drop, some,
  false, ltb, ◌⊎◌, inl, inr, Bool-cases, arith, Outcome, ok, bad, length-append,
}
use kcn.Common.Fallible.{◌>>◌}
use kcn.Buf.{len}
use kcn.Buf.View.{held, len_lem}
use kcn.Buf.Cursor.{length-held}
use kcn.Buf.Transfer.{HasRoom}
use kcn.File.Defs.{File, ensure_loop, ensure}
use kcn.File.Fill.{unread, IsSound, Cause, fill_lem}

-- Why kcndb_file_ensure fails: fewer bytes are to come, and the error is ESHUTDOWN, or the system had
-- an answer ready.
abbrev pub Shortage : ℕ → ℕ → File → Type 0
Shortage n e f = ((e ≡ eshutdown) × (length (unread f) < n)) ⊎ (0 < length f.answers)

Cause-Shortage : (n e : ℕ) (f : File) → length (held f.buf) < n → Cause e f → Shortage n e f
Cause-Shortage n e f h (inl (a, b)) =
    let z : length (unread f) ≡ length (held f.buf) + 0 =
      length-append (held f.buf) (drop f.offset f.content)
      ∙ ap (λ (l : List ℕ). length (held f.buf) + length l) b in
    inl (a, omega arith)
Cause-Shortage n e f h (inr a) = inr a

Shortage-back :
    (n e : ℕ) (f g : File)
    → unread g ≡ unread f
    → length g.answers ≤ length f.answers
    → Shortage n e g
    → Shortage n e f
Shortage-back n e f g u l (inl (a, b)) =
    let z : length (unread g) ≡ length (unread f) = ap (λ (l : List ℕ). length l) u in
    inl (a, omega arith)
Shortage-back n e f g u l (inr a) = inr (omega arith)

-- What holds when kcndb_file_ensure returns: the bytes to come are the same, and the buffer holds as
-- many as were asked for, or the call has failed for want of bytes or by an answer of the system.
abbrev pub Ensured : ℕ → File → Outcome (Unit {0}) → File → Type 0
Ensured n f o f' =
    IsSound f'
    × (unread f' ≡ unread f)
    × (f'.content ≡ f.content)
    × (f'.buf.cp - f'.buf.sp ≡ f.buf.cp - f.buf.sp)
    × (f'.buf.size ≡ f.buf.size)
    × (length f'.answers ≤ length f.answers)
    × (((o ≡ ok tt) × (n ≤ length (held f'.buf))) ⊎ ((e : ℕ) × (o ≡ bad e) × Shortage n e f))

back :
    (n : ℕ) (f g k : File) (o : Outcome (Unit {0}))
    → unread g ≡ unread f
    → length g.answers ≤ length f.answers
    → ((o ≡ ok tt) × (n ≤ length (held k.buf))) ⊎ ((e : ℕ) × (o ≡ bad e) × Shortage n e g)
    → ((o ≡ ok tt) × (n ≤ length (held k.buf))) ⊎ ((e : ℕ) × (o ≡ bad e) × Shortage n e f)
back n f g k o u a (inl w) = inl w
back n f g k o u a (inr (e, b, d)) = inr (e, b, Shortage-back n e f g u a d)

ensure_loop_lem :
    (fuel n : ℕ) {f : File}
    → IsSound f
    → n ≤ f.buf.size
    → n ≤ fuel + length (held f.buf)
    → (f' : File) × (o : Outcome (Unit {0})) × (ensure_loop fuel n f ≡ some (o, f'))
      × Ensured n f o f'
unfolding ensure_loop
ensure_loop_lem zero n {f} s z h =
    let m : length (held f.buf) ≡ len f.buf = length-held s.valid ∙ sym (len_lem s.valid) in
    let e : ltb (len f.buf) n ≡ false = ground arith in
    (f, ok tt, rw e refl, (s, refl, refl, refl, refl, omega arith, inl (refl, omega arith)))
ensure_loop_lem (suc fuel) n {f} s z h =
    let m : length (held f.buf) ≡ len f.buf = length-held s.valid ∙ sym (len_lem s.valid) in
    elim (Bool-cases (ltb (len f.buf) n)) [
      | inr e ↦
          (f, ok tt, rw e refl, (s, refl, refl, refl, refl, omega arith, inl (refl, ground arith)))
      | inl e ↦
          let room : HasRoom f.buf = ground (arith, len_lem s.valid) in
          let (g, o, r, t, u, c, y, a, h', done) = fill_lem s room in
          elim done [
            | inr (x, b, d) ↦ (
              g,
              o,
              rw (e, ◌>>◌, r, b) refl,
              (t, u, c, h', y, a, inr (x, b, Cause-Shortage n x f (ground arith) d)),
            )
            | inl (b, l) ↦
                let (k, p, q, (v, i, j, m', z', l', w)) =
                  ensure_loop_lem fuel n t (omega arith) (omega arith) in
                (
                  k,
                  p,
                  rw (e, ◌>>◌, r, b) q,
                  (v, i ∙ u, j ∙ c, m' ∙ h', z' ∙ y, omega arith, back n f g k p u a w),
                )
          ]
    ]

-- On a sound file whose block has room for `n` bytes, kcndb_file_ensure returns, whatever the system
-- answers, and no byte is lost: the bytes in the buffer and those from the offset on are the same
-- sequence as before, the file's bytes and the size of the block are as they were, the cursor is as
-- far behind the start of the data, and no answer is added. Either it succeeds and the buffer holds
-- `n` bytes at least, or it fails; and then fewer than `n` bytes are to come and the error is
-- ESHUTDOWN, or the system had an answer ready that cuts a transfer or refuses a call.
pub ensure_lem :
    (n : ℕ) {f : File}
    → IsSound f
    → n ≤ f.buf.size
    → (f' : File) × (o : Outcome (Unit {0})) × (ensure n f ≡ some (o, f')) × Ensured n f o f'
unfolding ensure
ensure_lem n s z = ensure_loop_lem n n s z (omega arith)
