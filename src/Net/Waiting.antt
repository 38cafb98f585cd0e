-- ===== src/Net/Waiting.antt =====
-- The bytes that wait in the queue of a connection (lib/kcn_net.c), and its head when it is written from.
use kcn.Common.{
  ℕ, ◌-◌, ◌≤◌, ◌<◌, ◌≡◌, refl, sym, ap, ◌∙◌, List, [], ◌∷◌, ◌++◌, length, take, drop as drop_bytes,
  some, none, true, Bool-cases, ◌==◌, inl, inr, ◌⊎◌, arith, eagain, eintr, append_assoc,
  take-append-drop, take-take,
}
use kcn.Buf.{Buf, init, kbd, WriteResult, write, write_error, write_loop as next_answer}
use kcn.Buf.View.{IsValid, held}
use kcn.Buf.Queue.{Queue, fetch, put_back, drop}
use kcn.Buf.Fifo.{AllValid, strings}
use kcn.Buf.Transfer.{sent, write_lem}
use kcn.Net.Defs.{Net, disconnected}
use kcn.Net.Io.{written}
use kcn.Net.Sound.{IsSound, Refuses}

abbrev pub bytes_of : List (List ℕ) → List ℕ
bytes_of [] = []
bytes_of (x ∷ xs) = x ++ bytes_of xs

-- The bytes that were written and those that wait, in their order.
abbrev pub stream : Net → List ℕ
stream n = n.wire ++ bytes_of (strings n.obufq)

-- The head of a queue, and the queue when another buffer is put in its place.
abbrev Head : Queue → Buf → Queue → Type 0
Head q b q' =
    (fetch q ≡ some b)
    × (b.cp ≡ b.sp)
    × IsValid b
    × AllValid q'
    × (strings q ≡ held b ∷ strings q')
    × ((b' : Buf)
        → IsValid b'
        → AllValid (put_back b' q)
          × (strings (put_back b' q) ≡ held b' ∷ strings q')
          × (drop (put_back b' q) ≡ some q'))

pub queue_front_lem :
    (q : Queue)
    → AllValid q
    → (fetch q ≡ none) × (strings q ≡ []) ⊎ ((b : Buf) × (q' : Queue) × Head q b q')
unfolding fetch put_back drop kbd init
queue_front_lem [] h = inl (refl, refl)
queue_front_lem (d ∷ q) h =
    inr (init d, q, (refl, refl, h.0, h.1, refl, λ b' v. ((omega (arith, v), h.1), refl, refl)))

sent_le : (n : ℕ) (r : WriteResult) → sent n r ≤ n
sent_le n (WriteResult.wrote m) = omega arith
sent_le n (WriteResult.failed e) = omega arith

-- A call that is not refused for the moment takes an answer.
pub fewer :
    (ws : List WriteResult)
    → (write_error (next_answer ws).0 ≡ eagain) ⊎ (length (next_answer ws).1 < length ws)
unfolding next_answer
fewer [] = inl (unfold write_error in refl)
fewer (w ∷ ws) = elim (Bool-cases (write_error w == eintr)) [
  | inl again ↦ rw again (elim (fewer ws) [ inl a ↦ inl a | inr b ↦ inr (omega arith) ])
  | inr done ↦ rw done (inr (omega arith))
]

pub nil : (l : List ℕ) → length l ≡ 0 → l ≡ []
nil [] h = refl
nil (x ∷ l) h = absurd (omega arith)

-- What was taken of a buffer and what it holds then are what it held.
taken_lem :
    (m : ℕ) (b b' : Buf)
    → m ≤ b.ep - b.sp
    → held b' ≡ drop_bytes m (held b)
    → take m (drop_bytes b.sp b.bytes) ++ held b' ≡ held b
taken_lem m b b' h e =
    rw (e, ← take-take m (b.ep - b.sp) (drop_bytes b.sp b.bytes) h) (take-append-drop m (held b))

-- Where the rest of the queue waits for: nothing, or the next event, unless the connection is down or
-- the event library has refused.
abbrev pub Progress : List ℕ → Net → Type 0
Progress l n =
    (strings n.obufq ≡ []) ⊎ ((n.state ≡ disconnected) ⊎ ((n.writing ≡ true) ⊎ Refuses l))

abbrev pub Drained : Net → Net → Type 0
Drained n n' = IsSound n' × (stream n' ≡ stream n) × Progress n.adds n'

-- The head of the queue once it was written from.
pub written_lem :
    (ws : List WriteResult) {n : Net} {b : Buf} {q : Queue}
    → IsSound n
    → Head n.obufq b q
    → (b' : Buf) × (write ws b ≡ some ((write_error (next_answer ws).0, (next_answer ws).1), b'))
      × IsValid b'
      × (b'.cp ≡ b'.sp)
      × IsSound (written ws b b' n)
      × (stream (written ws b b' n) ≡ stream n)
      × (strings (written ws b b' n).obufq ≡ held b' ∷ strings q)
      × (drop (written ws b b' n).obufq ≡ some q)
unfolding written
written_lem ws {n} {b} {q} s (f, c, v, a, e, put) =
    let (b', w, v', h, k) = write_lem ws v in
    let (a', e', d) = put b' v' in
    let out = take (sent (b.ep - b.sp) (next_answer ws).0) (drop_bytes b.sp b.bytes) in
    (
      b',
      w,
      v',
      omega arith,
      record { suits = s.suits; ibuf = s.ibuf; obuf = s.obuf; queue = a' },
      rw (e', e)
          (append_assoc n.wire out (held b' ++ bytes_of (strings q))
            ∙ ap (λ l. n.wire ++ l)
                (sym (append_assoc out (held b') (bytes_of (strings q)))
                  ∙ ap (λ l. l ++ bytes_of (strings q))
                      (taken_lem (sent (b.ep - b.sp) (next_answer ws).0) b b'
                        (sent_le (b.ep - b.sp) (next_answer ws).0) h))),
      e',
      d,
    )
