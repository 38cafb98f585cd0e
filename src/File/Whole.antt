-- ===== src/File/Whole.antt =====
-- Reading from a file (kcndbd/kcndb_file.c) behind an empty buffer, where the system does all that it can.
use mathlib.Core.Path.{subst}
use kcn.Common.{
  ℕ, zero, suc, ◌+◌, ◌-◌, ◌≤◌, ◌<◌, ◌≡◌, refl, sym, ap, ◌∙◌, List, [], ◌∷◌, ◌++◌, length, take,
  drop, some, true, false, ltb, ◌==◌, arith, ok, length-take, le→ltb, lt→ltb, All, length-append,
}
use kcn.Common.Fallible.{◌>>◌}
use kcn.Buf.{Buf, ReadResult, read_loop, read_error, len}
use kcn.Buf.View.{IsValid, held, ahead, len_lem}
use kcn.Buf.Load.{length-ahead}
use kcn.Buf.Cursor.{length-held}
use kcn.Buf.Transfer.{space, read_lem, read_start}
use kcn.File.Defs.{File, Answer, next, left, readable, fill, ensure, ensure_loop}
use kcn.File.Fill.{IsSound, IsAnswer}

loop_enough : (fuel n : ℕ) {f : File} → n ≤ len f.buf → ensure_loop fuel n f ≡ some (ok tt, f)
unfolding ensure_loop
loop_enough zero n {f} h = rw (le→ltb (len f.buf) n h) refl
loop_enough (suc fuel) n {f} h = rw (ensure_loop, le→ltb (len f.buf) n h) refl

-- Nothing is read where the buffer holds enough.
pub ensure_enough : (n : ℕ) {f : File} → n ≤ len f.buf → ensure n f ≡ some (ok tt, f)
unfolding ensure
ensure_enough n h = loop_enough n n h

whole_answer :
    (y : ℕ) (ys : List ℕ) (l : List Answer) (f : File)
    → l ≡ []
    → drop f.offset f.content ≡ y ∷ ys
    → (readable (next l) f ≡ ReadResult.got (y ∷ ys)) × (left l ≡ [])
unfolding readable next left
whole_answer y ys [] f h e = (rw e refl, refl)
whole_answer y ys (a ∷ l) f h e = cc

got_all :
    (y : ℕ) (ys : List ℕ) → read_loop (ReadResult.got (y ∷ ys) ∷ []) ≡ (ReadResult.got (y ∷ ys), [])
unfolding read_loop read_error
got_all y ys = refl

empty_held : (b : Buf) → b.ep - b.sp ≡ 0 → held b ≡ []
empty_held b h = rw h refl

-- As much stands behind the cursor as was added, if it stood at the end.
cursor_at_start :
    (xs : List ℕ) {b c : Buf}
    → IsValid b
    → IsValid c
    → held c ≡ held b ++ xs
    → ahead c ≡ ahead b ++ xs
    → b.cp ≡ b.sp
    → c.cp ≡ c.sp
cursor_at_start xs {b} {c} v w h a e = omega (
  arith,
  ap (λ (l : List ℕ). length l) h ∙ length-append (held b) xs,
  ap (λ (l : List ℕ). length l) a ∙ length-append (ahead b) xs,
  length-held w,
  length-ahead w,
  length-held v,
  length-ahead v,
)

-- One call fills the block, or takes all that is left.
pub fill_whole :
    (y : ℕ) (ys : List ℕ) {f : File}
    → IsSound f
    → f.answers ≡ []
    → 0 < f.buf.size
    → f.buf.sp ≡ 0
    → f.buf.ep ≡ 0
    → drop f.offset f.content ≡ y ∷ ys
    → (g : File) × (fill f ≡ some (ok tt, g))
      × IsSound g
      × (held g.buf ≡ take f.buf.size (y ∷ ys))
      × (g.buf.cp ≡ g.buf.sp)
      × (g.buf.size ≡ f.buf.size)
      × (g.content ≡ f.content)
      × (g.answers ≡ [])
      × (g.buf.sp ≡ 0)
unfolding fill
fill_whole y ys {f} s a room p e d =
    let (r, l) = whole_answer y ys f.answers f a d in
    let q : read_loop (readable (next f.answers) f ∷ []) ≡ (ReadResult.got (y ∷ ys), []) =
      rw r (got_all y ys) in
    let (b, x, v, hh, aa, z, w) =
      read_lem (readable (next f.answers) f ∷ []) s.valid (omega arith) in
    let q0 : (read_loop (readable (next f.answers) f ∷ [])).0 ≡ ReadResult.got (y ∷ ys) =
      ap (λ m. m.0) q in
    let h0 : held f.buf ≡ [] = empty_held f.buf (omega arith) in
    let e0 : (f.buf.ep == f.buf.size) ≡ false = ground arith in
    let sp : space f.buf ≡ f.buf.size = rw e0 (omega arith) in
    let t : held b ≡ take f.buf.size (y ∷ ys) = hh ∙ rw (h0, q0, sp) refl in
    let o : (read_error (read_loop (readable (next f.answers) f ∷ [])).0 == 0) ≡ true =
      rw q0 (unfold read_error in refl) in
    (
      record f { buf = b; answers = left f.answers; offset = f.offset + (len b - len f.buf) },
      rw (fill, x, o) refl,
      record { valid = v; errnos = subst (λ m. All IsAnswer m) (sym l) tt },
      t,
      cursor_at_start _ s.valid v hh aa (omega arith),
      w,
      refl,
      l,
      read_start _ _ s.valid (omega arith) x ∙ p,
    )

-- A first call of kcndb_file_ensure behind an empty buffer does the same.
pub ensure_whole :
    (n y : ℕ) (ys : List ℕ) {f : File}
    → IsSound f
    → f.answers ≡ []
    → 0 < n
    → n ≤ f.buf.size
    → n ≤ length (y ∷ ys)
    → f.buf.sp ≡ 0
    → f.buf.ep ≡ 0
    → drop f.offset f.content ≡ y ∷ ys
    → (g : File) × (ensure n f ≡ some (ok tt, g))
      × IsSound g
      × (held g.buf ≡ take f.buf.size (y ∷ ys))
      × (g.buf.cp ≡ g.buf.sp)
      × (g.buf.size ≡ f.buf.size)
      × (g.content ≡ f.content)
      × (g.answers ≡ [])
      × (g.buf.sp ≡ 0)
unfolding ensure ensure_loop
ensure_whole zero y ys s a h room l p e d = absurd (omega arith)
ensure_whole (suc n) y ys {f} s a h room l p e d =
    let (g, r, t, u, c, z, k, m, at) = fill_whole y ys s a (omega arith) p e d in
    let empty : ltb (len f.buf) (suc n) ≡ true =
      lt→ltb (len f.buf) (suc n) (omega (arith, len_lem s.valid)) in
    let enough : suc n ≤ len g.buf = omega (
      arith,
      len_lem t.valid,
      length-held t.valid,
      ap (λ (l : List ℕ). length l) u,
      length-take f.buf.size (y ∷ ys),
    ) in
    (g, rw (ensure_loop, empty, ◌>>◌, r) (loop_enough n (suc n) enough), t, u, c, z, k, m, at)

-- The same with the bytes at the offset as one list.
pub ensure_at_offset :
    (n : ℕ) (l : List ℕ) {f : File}
    → IsSound f
    → f.answers ≡ []
    → 0 < n
    → n ≤ f.buf.size
    → n ≤ length l
    → f.buf.sp ≡ 0
    → f.buf.ep ≡ 0
    → drop f.offset f.content ≡ l
    → (g : File) × (ensure n f ≡ some (ok tt, g))
      × IsSound g
      × (held g.buf ≡ take f.buf.size l)
      × (g.buf.cp ≡ g.buf.sp)
      × (g.buf.size ≡ f.buf.size)
      × (g.content ≡ f.content)
      × (g.answers ≡ [])
      × (g.buf.sp ≡ 0)
ensure_at_offset n [] s a h room m p e d = absurd (omega arith)
ensure_at_offset n (y ∷ ys) s a h room m p e d = ensure_whole n y ys s a h room m p e d
