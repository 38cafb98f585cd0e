-- ===== src/Buf/Fifo.antt =====
-- A queue of buffers (lib/kcn_buf.c) is a queue of byte strings, in the order of their arrival.
use kcn.Common.{
  ℕ, ◌-◌, ◌≡◌, refl, ap, ◌∙◌, List, [], ◌∷◌, ◌++◌, some, none, true, false, length, take, drop,
  splice, arith, splice-front, take-append_left, length-splice, ◌⊎◌, inl, inr,
}
use kcn.Buf.Defs.{BufData, Buf, init}
use kcn.Buf.View.{IsValid, held, len_lem}
use kcn.Buf.Cursor.{length-held}
use kcn.Buf.Queue
use kcn.Buf.Queue.{Queue, data_dup, enqueue, fetch, purge}

-- The byte strings that wait in a queue.
abbrev pub strings : Queue → List (List ℕ)
strings [] = []
strings (d ∷ q) = take (d.ep - d.sp) (drop d.sp d.bytes) ∷ strings q

abbrev pub AllValid : Queue → Type 0
AllValid [] = Unit
AllValid (d ∷ q) =
    IsValid (record { size = d.size; sp = d.sp; ep = d.ep; bytes = d.bytes; cp = d.sp })
    × AllValid q

strings-append : (q : Queue) (d : BufData) → strings (q ++ (d ∷ [])) ≡ strings q ++ strings (d ∷ [])
strings-append [] d = refl
strings-append (x ∷ q) d = ap (λ r. take (x.ep - x.sp) (drop x.sp x.bytes) ∷ r) (strings-append q d)

AllValid-append :
    (q : Queue) (d : BufData) → AllValid q → AllValid (d ∷ []) → AllValid (q ++ (d ∷ []))
AllValid-append [] d h k = k
AllValid-append (x ∷ q) d h k = (h.0, AllValid-append q d h.1 k)

-- A copy of a buffer in a new block.
copy : List ℕ → Buf → BufData
copy block b = record {
  size = length block;
  sp = 0;
  ep = b.ep - b.sp;
  bytes = splice block 0 (held b);
}

data_dup-copy :
    (block : List ℕ) {b : Buf} → IsValid b → data_dup (some block) b ≡ some (copy block b)
unfolding data_dup copy
data_dup-copy block v = ground (arith, len_lem v)

copy-held :
    (block : List ℕ) {b : Buf}
    → IsValid b
    → length block ≡ b.ep - b.sp
    → AllValid (copy block b ∷ []) × (strings (copy block b ∷ []) ≡ held b ∷ [])
unfolding copy
copy-held block {b} v e =
    let n : length (held b) ≡ b.ep - b.sp = length-held v in
    let m : b.ep - b.sp - 0 ≡ length (held b) = omega arith in
    (
      (omega (arith, length-splice block 0 (held b)), tt),
      rw (splice-front (held b) block (omega arith), m, take-append_left),
    )

enqueue-copy :
    (block : List ℕ) (q : Queue) {b : Buf}
    → IsValid b
    → enqueue (some block) b q ≡ (true, q ++ (copy block b ∷ []))
unfolding enqueue
enqueue-copy block q v = rw (data_dup-copy block v, enqueue)

enqueue-none : (q : Queue) (b : Buf) → enqueue none b q ≡ (false, q)
unfolding enqueue data_dup
enqueue-none q b = refl

-- Where malloc() gives a block, enqueueing a valid buffer succeeds and puts a copy of the bytes
-- that it holds behind all others; where it gives none, the queue stays as it was.
pub strings-enqueue :
    (block : List ℕ) (q : Queue) {b : Buf}
    → IsValid b
    → AllValid q
    → length block ≡ b.ep - b.sp
    → ((enqueue (some block) b q).0 ≡ true)
      × AllValid (enqueue (some block) b q).1
      × (strings (enqueue (some block) b q).1 ≡ strings q ++ (held b ∷ []))
      × (enqueue none b q ≡ (false, q))
strings-enqueue block q {b} v h e =
    let (k, s) = copy-held block v e in
    rw (enqueue-copy block q v) (
      refl,
      AllValid-append q (copy block b) h k,
      strings-append q (copy block b) ∙ rw s,
      enqueue-none q b,
    )

-- What the head of a queue holds, and what is behind it.
abbrev pub Serves : Queue → Type 0
Serves q =
    (b : Buf) × (q' : Queue) × (fetch q ≡ some b)
    × (Queue.drop q ≡ some q')
    × IsValid b
    × AllValid q'
    × (strings q ≡ held b ∷ strings q')

-- Fetching from a queue of valid buffers gives the string that arrived first, and dropping leaves
-- the others in their order; on an empty queue nothing is fetched. Purging leaves no string.
pub fetch-strings :
    (q : Queue) → AllValid q → (((fetch q ≡ none) × (strings q ≡ [])) ⊎ Serves q) × (purge q ≡ [])
unfolding fetch purge Queue.drop
fetch-strings [] h = (inl (refl, refl), refl)
fetch-strings (d ∷ q) h =
    (inr (init d, q, refl, refl, h.0, h.1, unfold init in refl), (fetch-strings q h.1).1)
