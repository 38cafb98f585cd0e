-- ===== src/Net/Ready.antt =====
-- Sending on a connection that is up (lib/kcn_net.c), where the event library and malloc() refuse nothing.
use kcn.Common.{
  ℕ, ◌≡◌, refl, ap, ◌∙◌, List, [], ◌∷◌, ◌++◌, replicate, length-replicate, some, Bool, true, false,
  arith, ok, M,
}
use kcn.Common.Fallible.{◌>>=◌, ◌>>◌}
use kcn.Buf.{Buf, init, kbd, len}
use kcn.Buf.View.{IsValid, held, len_lem}
use kcn.Buf.Queue.{enqueue}
use kcn.Buf.Fifo.{strings, strings-enqueue}
use kcn.Msg.Encode.{packet}
use kcn.Msg.Bodies.{Encodes}
use kcn.Net.Defs.{
  Net, Phase, initial, pending, established, disconnected, event_add, event_enable, write_enable,
}
use kcn.Net.Io.{block_for, enqueued, net_write, net_write_in, with_obuf}
use kcn.Net.Sound.{IsSound, IsUp, Suits-write}

-- A connection that is sound and up, whose calls all succeed, with a buffer of `k` bytes for messages.
pub record IsReady (k : ℕ) (n : Net) : Type 0 where
  pub is_sound : IsSound n
  pub is_up : IsUp n.state
  pub no_adds : n.adds ≡ []
  pub no_mallocs : n.mallocs ≡ []
  pub obuf_size : n.obuf.size ≡ k

added : (add : Net → Net) (l : List ℕ) (n : Net) → l ≡ [] → event_add add l n ≡ some (ok tt, add n)
unfolding event_add
added add [] n h = refl
added add (e ∷ l) n h = cc

enabled :
    (b : Bool) (n : Net)
    → n.writing ≡ b
    → n.adds ≡ []
    → event_enable b (λ m. record m { writing = true }) n
      ≡ some (ok tt, record n { writing = true })
unfolding event_enable
enabled true n h a = ap (λ w. some (ok tt, record n { writing = w })) h
enabled false n h a = added (λ m. record m { writing = true }) n.adds n a

block_given : (l : List Bool) (k : ℕ) → l ≡ [] → block_for l k ≡ (some (replicate k 0), [])
unfolding block_for
block_given [] k h = refl
block_given (x ∷ l) k h = cc

-- The connection with another buffer in its queue.
queued : Buf → Net → Net
queued b n = record n {
  obufq = (enqueue (some (replicate (len b) 0)) b n.obufq).1;
  mallocs = [];
  writing = true;
}

enqueued_ready :
    (b : Buf) (n : Net)
    → IsSound n
    → IsValid b
    → n.mallocs ≡ []
    → enqueued b n
      ≡ some (
        ok tt,
        record n { obufq = (enqueue (some (replicate (len b) 0)) b n.obufq).1; mallocs = [] },
      )
unfolding enqueued
enqueued_ready b n s v h =
    let (t, _, _, _) =
      strings-enqueue (replicate (len b) 0) n.obufq v s.queue
        (length-replicate (len b) 0 ∙ len_lem v) in
    rw (block_given n.mallocs (len b) h, t) refl

write_ready :
    (p : Phase) (b : Buf) (n : Net)
    → IsUp p
    → IsSound n
    → IsValid b
    → n.mallocs ≡ []
    → n.adds ≡ []
    → net_write_in p b n ≡ some (ok tt, queued b n)
unfolding net_write_in queued write_enable
write_ready disconnected b n u s v h a = elim u [ ]
write_ready initial b n u s v h a = rw (◌>>◌, enqueued_ready b n s v h) (enabled n.writing _ refl a)
write_ready pending b n u s v h a = rw (◌>>◌, enqueued_ready b n s v h) (enabled n.writing _ refl a)
write_ready established b n u s v h a =
    rw (◌>>◌, enqueued_ready b n s v h) (enabled n.writing _ refl a)

-- What sending a string leaves: it waits behind all others, and the next write is enabled.
abbrev pub Sent : ℕ → Net → List ℕ → Net → Type 0
Sent k n xs n' =
    IsReady k n'
    × (strings n'.obufq ≡ strings n.obufq ++ (xs ∷ []))
    × (n'.writing ≡ true)
    × (n'.state ≡ n.state)
    × (n'.wire ≡ n.wire)
    × (n'.ibuf ≡ n.ibuf)

net_write_ready :
    (k : ℕ) (b : Buf) {n : Net}
    → IsReady k n
    → IsValid b
    → (n' : Net) × (net_write b n ≡ some (ok tt, n')) × Sent k n (held b) n'
unfolding net_write queued
net_write_ready k b {n} r v =
    let s = r.is_sound in
    let (_, a, e, _) =
      strings-enqueue (replicate (len b) 0) n.obufq v s.queue
        (length-replicate (len b) 0 ∙ len_lem v) in
    (
      queued b n,
      write_ready n.state b n r.is_up s v r.no_mallocs r.no_adds,
      (
        record {
          is_sound = record {
            suits = Suits-write n.state n.reading n.writing n.closes r.is_up s.suits;
            ibuf = s.ibuf;
            obuf = s.obuf;
            queue = a;
          };
          is_up = r.is_up;
          no_adds = r.no_adds;
          no_mallocs = refl;
          obuf_size = r.obuf_size;
        },
        e,
        refl,
        refl,
        refl,
        refl,
      ),
    )

-- An encoder writes its message into the buffer for messages, and the message is sent.
pub send_ready :
    (k : ℕ) (m : M Buf (Unit {0})) (type : ℕ) (body : List ℕ) {n : Net}
    → IsReady k n
    → Encodes m type body (init n.obuf)
    → (n' : Net) × ((with_obuf m >>= net_write) n ≡ some (ok tt, n'))
      × Sent k n (packet type body) n'
unfolding with_obuf kbd init
send_ready k m type body {n} r (b, e, v, h, z) =
    let s = r.is_sound in
    let n1 : Net = record n { obuf = kbd b } in
    let r1 : IsReady k n1 = record {
      is_sound = record { suits = s.suits; ibuf = s.ibuf; obuf = omega arith; queue = s.queue };
      is_up = r.is_up;
      no_adds = r.no_adds;
      no_mallocs = r.no_mallocs;
      obuf_size = z ∙ r.obuf_size;
    } in
    let (n', f, (r', t, w, q, x, y)) = net_write_ready k b r1 v in
    (
      n',
      rw (◌>>=◌, with_obuf, e) f,
      (r', t ∙ ap (λ xs. strings n.obufq ++ (xs ∷ [])) h, w, q, x, y),
    )
