-- ===== src/Net/Steps.antt =====
-- The life of a connection (lib/kcn_net.c) as a step relation, and what holds in all its states.
use mathlib.Core.Path.{subst}
use kcn.Common.{
  ℕ, ◌≡◌, ◌≢◌, refl, sym, ap, ◌∙◌, List, [], ◌∷◌, ◌++◌, replicate, length-replicate, some, none,
  Bool, true, false, inl, inr, ◌⊎◌, Outcome, ok, bad, enomem,
}
use kcn.Common.Fallible.{◌>>◌}
use kcn.Buf.{Buf, len}
use kcn.Buf.View.{IsValid, held, len_lem}
use kcn.Buf.Queue.{enqueue}
use kcn.Buf.Fifo.{strings, strings-enqueue}
use kcn.Net.Defs.{Net, Phase, initial, pending, established, disconnected, write_enable}
use kcn.Net.Io.{block_for, enqueued, net_write, net_write_in}
use kcn.Net.Sound.{IsSound, IsUp, Refuses, write_enable_lem}

block_cases :
    (l : List Bool) (k : ℕ)
    → ((block_for l k).0 ≡ some (replicate k 0)) ⊎ ((block_for l k).0 ≡ none)
unfolding block_for
block_cases [] k = inl refl
block_cases (true ∷ l) k = inl refl
block_cases (false ∷ l) k = inr refl

Outcome-cases : (o : Outcome (Unit {0})) → (o ≡ ok tt) ⊎ ((e : ℕ) × (o ≡ bad e))
Outcome-cases (ok tt) = inl refl
Outcome-cases (bad e) = inr (e, refl)

-- A buffer is queued behind the others, or nothing is.
abbrev Queued : Net → Buf → Outcome (Unit {0}) → Net → Type 0
Queued n b o n' =
    ((o ≡ ok tt) × (strings n'.obufq ≡ strings n.obufq ++ (held b ∷ [])))
    ⊎ ((o ≢ ok tt) × (n'.obufq ≡ n.obufq))

-- The copy of a buffer that is queued, or the failure of malloc().
enqueued_lem :
    {b : Buf} {n : Net}
    → IsSound n
    → IsValid b
    → (n' : Net) × (o : Outcome (Unit {0})) × (enqueued b n ≡ some (o, n'))
      × IsSound n'
      × (n'.state ≡ n.state)
      × (n'.wire ≡ n.wire)
      × (n'.adds ≡ n.adds)
      × Queued n b o n'
unfolding enqueued
enqueued_lem {b} {n} s v =
    let k = block_for n.mallocs (len b) in
    let (t, a, e, f) =
      strings-enqueue (replicate (len b) 0) n.obufq v s.queue
        (length-replicate (len b) 0 ∙ len_lem v) in
    elim (block_cases n.mallocs (len b)) [
      | inl got ↦
          let q = (enqueue (some (replicate (len b) 0)) b n.obufq).1 in
          (
            record n { obufq = q; mallocs = k.1 },
            ok tt,
            rw (got, t) refl,
            record { suits = s.suits; ibuf = s.ibuf; obuf = s.obuf; queue = a },
            refl,
            refl,
            refl,
            inl (refl, e),
          )
      | inr none_left ↦ (
        record n { mallocs = k.1 },
        bad enomem,
        rw (none_left, f) refl,
        record { suits = s.suits; ibuf = s.ibuf; obuf = s.obuf; queue = s.queue },
        refl,
        refl,
        refl,
        inr ((λ h. cc), refl),
      )
    ]

-- What kcn_net_write leaves of a connection that is up.
abbrev pub Accepts : Net → Buf → Outcome (Unit {0}) → Net → Type 0
Accepts n b o n' =
    IsSound n'
    × IsUp n'.state
    × (n'.wire ≡ n.wire)
    × (((strings n'.obufq ≡ strings n.obufq ++ (held b ∷ []))
          × ((n'.writing ≡ true) ⊎ Refuses n.adds))
        ⊎ ((o ≢ ok tt) × (n'.obufq ≡ n.obufq)))

queue_and_enable :
    (b : Buf) {n : Net}
    → IsSound n
    → IsUp n.state
    → IsValid b
    → (n' : Net) × (o : Outcome (Unit {0})) × ((enqueued b >> write_enable) n ≡ some (o, n'))
      × Accepts n b o n'
queue_and_enable b {n} s t v =
    let (m, o, e, s', q, w, a, z) = enqueued_lem s v in
    elim z [
      | inr (h, y) ↦ elim (Outcome-cases o) [
        | inl h' ↦ absurd (h h')
        | inr (x, h') ↦
            (m, bad x, rw (◌>>◌, e, h') refl, (s', subst IsUp (sym q) t, w, inr ((λ k. cc), y)))
      ]
      | inl (h, y) ↦
          let (n', o', f, (s'', q', k, z')) = write_enable_lem s' (subst IsUp (sym q) t) in
          (
            n',
            o',
            rw (◌>>◌, e, h) f,
            (
              s'',
              subst IsUp (sym (q' ∙ q)) t,
              k.1 ∙ w,
              inl (ap strings k.0 ∙ y, subst (λ l. (n'.writing ≡ true) ⊎ Refuses l) a z'),
            ),
          )
    ]

net_write_up :
    (p : Phase) (b : Buf) {n : Net}
    → IsUp p
    → IsSound n
    → IsUp n.state
    → IsValid b
    → (n' : Net) × (o : Outcome (Unit {0})) × (net_write_in p b n ≡ some (o, n')) × Accepts n b o n'
unfolding net_write_in
net_write_up disconnected b u s t v = elim u [ ]
net_write_up initial b u s t v = queue_and_enable b s t v
net_write_up pending b u s t v = queue_and_enable b s t v
net_write_up established b u s t v = queue_and_enable b s t v

-- kcn_net_write on a sound connection that is up, for a valid buffer: it returns and the connection is
-- sound and up. Either the bytes of the buffer wait behind all others and the next write is enabled,
-- unless the event library refuses, or the call fails and the queue is as it was.
pub net_write_lem :
    (b : Buf) {n : Net}
    → IsSound n
    → IsUp n.state
    → IsValid b
    → (n' : Net) × (o : Outcome (Unit {0})) × (net_write b n ≡ some (o, n')) × Accepts n b o n'
unfolding net_write
net_write_lem b {n} s t v = net_write_up n.state b t s t v
