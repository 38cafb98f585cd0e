-- ===== src/Buf/Queue.antt =====
-- The queues of buffers of lib/kcn_buf.c, lines 327-375. A buffer that is fetched shares its data
-- with the head of the queue; `put_back` makes that head what the buffer has become.
use kcn.Common.{
  ℕ, List, [], ◌∷◌, ◌++◌, Option, some, none, Bool, true, false, take, drop as drop_bytes, splice,
}
use kcn.Buf.Defs.{BufData, Buf, data_new, init, kbd, len}

-- struct kcn_buf_queue, the oldest data first.
abbrev pub Queue : Type 0
Queue = List BufData

-- kcn_buf_data_dup, with what malloc() answers for the block.
unfoldable pub data_dup : Option (List ℕ) → Buf → Option BufData
unfolding data_new len
data_dup none b = none
data_dup (some block) b =
    let n = len b in
    let copy = take n (drop_bytes b.sp b.bytes) in
    some (record (data_new block) { bytes = splice block 0 copy; ep = n })

unfoldable pub enqueue : Option (List ℕ) → Buf → Queue → Bool × Queue
enqueue block b q = elim (data_dup block b) [ none ↦ (false, q) | some d ↦ (true, q ++ (d ∷ [])) ]

unfoldable pub fetch : Queue → Option Buf
unfolding init
fetch [] = none
fetch (d ∷ q) = some (init d)

unfoldable pub put_back : Buf → Queue → Queue
unfolding kbd
put_back b [] = []
put_back b (d ∷ q) = kbd b ∷ q

-- Only the head that was fetched may be dropped: the assertion fails on an empty queue.
unfoldable pub drop : Queue → Option Queue
drop [] = none
drop (d ∷ q) = some q

-- The loop fetches and drops until the queue is empty.
unfoldable pub purge : Queue → Queue
purge [] = []
purge (d ∷ q) = purge q
