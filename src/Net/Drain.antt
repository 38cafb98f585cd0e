-- ===== src/Net/Drain.antt =====
-- What kcn_net_write_cb (lib/kcn_net.c) does with the queue, on every answer of write().
use mathlib.Core.Path.{subst}
use kcn.Common.{
  ℕ, zero, suc, ◌-◌, ◌<◌, ◌≡◌, ◌≢◌, refl, sym, ap, ◌∙◌, List, [], ◌∷◌, ◌++◌, length, some, Option,
  true, false, Bool-cases, ◌==◌, inl, inr, ◌⊎◌, arith, Outcome, ok, eagain,
}
use kcn.Common.Fallible.{◌>>=◌, ◌>>◌}
use kcn.Buf.{Buf, WriteResult, write_error, write_loop as next_answer}
use kcn.Buf.View.{IsValid, held, trailingdata_lem}
use kcn.Buf.Cursor.{length-held}
use kcn.Buf.Queue.{Queue, drop}
use kcn.Buf.Fifo.{AllValid, strings}
use kcn.Net.Defs.{Net, established, disconnected, Events, state_change}
use kcn.Net.Io.{drop_empty, write_done, write_loop, write_cb, wrong_timeout}
use kcn.Net.Checks.{wrong_without_write, event_seen, event_late, event_early}
use kcn.Net.Sound.{IsSound, IsUp, Same, write_enable_lem}
use kcn.Net.States.{disconnect_lem, establish_lem}
use kcn.Net.Waiting.{bytes_of, stream, queue_front_lem, fewer, nil, Progress, Drained, written_lem}

-- Dropping a buffer that is empty keeps what waits, and so does leaving one that is not.
drop_empty_lem :
    {b : Buf} {n : Net} (q : Queue)
    → IsSound n
    → AllValid q
    → IsValid b
    → b.cp ≡ b.sp
    → strings n.obufq ≡ held b ∷ strings q
    → drop n.obufq ≡ some q
    → (n' : Net) × (drop_empty b n ≡ some (ok tt, n'))
      × IsSound n'
      × (stream n' ≡ stream n)
      × (n'.state ≡ n.state)
      × (n'.adds ≡ n.adds)
unfolding drop_empty
drop_empty_lem {b} {n} q s a v c e d = elim (Bool-cases (b.ep - b.cp == 0)) [
  | inr z ↦ (n, rw (drop_empty, trailingdata_lem v, z) refl, s, refl, refl, refl)
  | inl z ↦
      let l : length (held b) ≡ 0 = ground (arith, length-held v) in
      (
        record n { obufq = q },
        rw (drop_empty, trailingdata_lem v, z, d) refl,
        record { suits = s.suits; ibuf = s.ibuf; obuf = s.obuf; queue = a },
        rw e (ap (λ r. n.wire ++ (r ++ bytes_of (strings q))) (sym (nil (held b) l))),
        refl,
        refl,
      )
]

stream-Same : (n n' : Net) → Same n n' → stream n' ≡ stream n
stream-Same n n' k =
    ap (λ l. l ++ bytes_of (strings n'.obufq)) k.1 ∙ ap (λ q. n.wire ++ bytes_of (strings q)) k.0

-- What follows a write, with the rounds after it.
write_done_lem :
    (error : ℕ) {b : Buf} {n : Net} (q : Queue) (more : Net → Option (Outcome (Unit {0}) × Net))
    → IsSound n
    → n.state ≡ established
    → AllValid q
    → IsValid b
    → b.cp ≡ b.sp
    → strings n.obufq ≡ held b ∷ strings q
    → drop n.obufq ≡ some q
    → (error ≢ eagain
        → (m : Net) → IsSound m
        → m.state ≡ established
        → (n' : Net) × (more m ≡ some (ok tt, n')) × Drained m n')
    → (n' : Net) × (write_done error b more n ≡ some (ok tt, n')) × Drained n n'
unfolding write_done
write_done_lem error {b} {n} q more s t a v c e d rest = elim (Bool-cases (error == eagain)) [
  | inl again ↦
      let (n', o, w, (s', t', k, p)) = write_enable_lem s (subst IsUp (sym t) tt) in
      (n', rw (again, ◌>>◌, w) refl, (s', stream-Same n n' k, inr (inr p)))
  | inr z ↦ elim (Bool-cases (error == 0)) [
    | inr failed ↦
        let (n', w, (s', t', k)) = disconnect_lem s in
        (n', rw (z, failed) w, (s', stream-Same n n' k, inr (inl t')))
    | inl sent_some ↦
        let (m, w, s', x, t', y) = drop_empty_lem q s a v c e d in
        let (n', r, (s'', x', p)) = rest (ground arith) m s' (t' ∙ t) in
        (n', rw (z, sent_some, ◌>>◌, w) r, (s'', x' ∙ x, subst (λ l. Progress l n') y p))
  ]
]

write_loop_lem :
    (fuel : ℕ) (ws : List WriteResult) {n : Net}
    → IsSound n
    → n.state ≡ established
    → length ws < fuel
    → (n' : Net) × (write_loop fuel ws n ≡ some (ok tt, n')) × Drained n n'
unfolding write_loop
write_loop_lem zero ws s t h = absurd (omega arith)
write_loop_lem (suc fuel) ws {n} s t h = elim (queue_front_lem n.obufq s.queue) [
  | inl (f, e) ↦ (n, rw (write_loop, f) refl, (s, refl, inl e))
  | inr (b, q, x) ↦
      let (b', w, v, c, s', y, e, d) = written_lem ws s x in
      let (n', r, z) =
        write_done_lem (write_error (next_answer ws).0) q (write_loop fuel (next_answer ws).1) s' t
          x.3 v c e d
          (λ again m sm tm.
            write_loop_lem fuel (next_answer ws).1 sm tm
              (elim (fewer ws) [ inl a ↦ absurd (again a) | inr l ↦ omega arith ])) in
      (n', rw (write_loop, x.0, w) r, (z.0, z.1 ∙ y, z.2))
]

-- Nothing waits in the queue, or the connection is down, or its next write is enabled.
abbrev pub Settled : Net → Type 0
Settled n = (strings n.obufq ≡ []) ⊎ ((n.state ≡ disconnected) ⊎ (n.writing ≡ true))

settle : (l : List ℕ) (n : Net) → l ≡ [] → Progress l n → Settled n
settle [] n e (inl a) = inl a
settle [] n e (inr (inl a)) = inr (inl a)
settle [] n e (inr (inr (inl a))) = inr (inr a)
settle [] n e (inr (inr (inr a))) = elim a [ ]
settle (x ∷ l) n e p = cc

no_answers : (l : List ℕ) → (l ≡ []) ⊎ (l ≢ [])
no_answers [] = inl refl
no_answers (x ∷ l) = inr (λ h. cc)

-- The loop on a connection that has just been established.
write_begin :
    (ws : List WriteResult) {n : Net}
    → IsSound n
    → IsUp n.state
    → (n' : Net) × ((state_change established n) ≡ some (ok tt, n'))
      × (n'' : Net) × (write_loop (suc (length ws)) ws n' ≡ some (ok tt, n''))
      × IsSound n''
      × (stream n'' ≡ stream n)
      × ((n.adds ≢ []) ⊎ Settled n'')
write_begin ws {n} s u =
    let (n', e, (t, q, k, w, z)) = establish_lem s u in
    let (n'', r, (s', x, p)) = write_loop_lem (suc (length ws)) ws t q (omega arith) in
    (
      n',
      e,
      n'',
      r,
      s',
      x ∙ stream-Same n n' k,
      elim (no_answers n.adds) [ inl a ↦ inr (settle n'.adds n'' (z a ∙ a) p) | inr a ↦ inl a ],
    )

-- What kcn_net_write_cb does on any events and any answers of write(), on a sound connection that is up:
-- it returns, no assertion fails, and the connection is sound again. No byte is lost, doubled or moved:
-- the bytes written and those that wait are the same sequence as before. Unless the callback came
-- without the event of a write or the event library had answers ready, which may refuse, nothing waits
-- when it returns, or the connection is down, or the next write is enabled.
pub write_cb_lem :
    (ev : Events) (ws : List WriteResult) {n : Net}
    → IsSound n
    → IsUp n.state
    → (n' : Net) × (write_cb ev (suc (length ws)) ws n ≡ some (ok tt, n'))
      × IsSound n'
      × (stream n' ≡ stream n)
      × ((ev.write ≡ false) ⊎ ((n.adds ≢ []) ⊎ Settled n'))
unfolding write_cb
write_cb_lem ev ws {n} s u = elim (Bool-cases (wrong_timeout n.state ev)) [
  | inl wrong ↦
      let (n', e, (t, q, k, w, z)) = establish_lem s u in
      (n', rw wrong e, t, stream-Same n n' k, inl (wrong_without_write n.state ev wrong))
  | inr right ↦ elim (Bool-cases ev.write) [
    | inl yes_write ↦
        let (n', e, n'', r, s', x, p) = write_begin ws s u in
        (n'', rw right (rw (◌>>=◌, event_seen ev.write ev n n' yes_write e) r), s', x, inr p)
    | inr no_write ↦ elim (Bool-cases ev.timeout) [
      | inl late ↦
          let (n', e, (t, q, k)) = disconnect_lem s in
          (
            n',
            rw right (rw (◌>>=◌, event_late ev.write ev n n' no_write late e) refl),
            t,
            stream-Same n n' k,
            inl no_write,
          )
      | inr early ↦ (
        n,
        rw right (rw (◌>>=◌, event_early ev.write ev n no_write early) refl),
        s,
        refl,
        inl no_write,
      )
    ]
  ]
]
