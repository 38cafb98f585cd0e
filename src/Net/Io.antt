-- ===== src/Net/Io.antt =====
-- The callbacks of lib/kcn_net.c and its writing. An event does not persist: when its callback is
-- called it is not pending any more.
use kcn.Common.{
  ℕ, zero, suc, ◌-◌, List, [], ◌∷◌, ◌++◌, take, drop as drop_bytes, replicate, Option, some, none,
  Bool, true, false, not, ◌&&◌, ◌==◌, if◌then◌else◌, M, ok, bad, eagain, enomem, enetdown,
}
use kcn.Common.Fallible.{E, ◌>>=◌, ◌>>◌, pure, fail, lift, focus, attempt}
use kcn.Buf.{
  Buf, init, kbd, len, trailingdata, ReadResult, WriteResult, read, write,
  write_loop as next_answer,
}
use kcn.Buf.Transfer.{sent}
use kcn.Buf.Queue.{enqueue, fetch, put_back, drop}
use kcn.Net.Defs.{
  Net, Phase, pending, established, disconnected, Events, write_enable, read_enable, state_change,
  disconnect,
}

-- kcn_net_obuf, for an encoder that writes into the buffer: the buffer as it is then.
unfoldable pub with_obuf : M Buf (Unit {0}) → E Net Buf
with_obuf m n = elim (m (init n.obuf)) [
  | none ↦ none
  | some (u, b) ↦ some (ok b, record n { obuf = kbd b })
]

-- The event library calls back, which takes the event away.
unfoldable pub fire_read : Net → Net
fire_read n = record n { reading = false }

unfoldable pub fire_write : Net → Net
fire_write n = record n { writing = false }

-- kcn_net_event_check with the bit of the event that is waited for
unfoldable pub event_check : Bool → Events → E Net Bool
event_check true ev n = (do state_change established; pure true) n
event_check false ev n = if ev.timeout then (do disconnect; pure false) n else some (ok false, n)

module _ {S : Type 0} (readcb : E (Net × S) ℕ) where
  abbrev pub on_net : {A : Type 0} → E Net A → E (Net × S) A
  on_net m = focus (λ p. p.0) (λ n p. (n, p.1)) m

  -- The end of kcn_net_read_cb with the error of the reading or of the callback.
  unfoldable pub read_end : ℕ → E (Net × S) (Unit {0})
  read_end error p =
      if error == eagain
      then on_net (attempt read_enable >> pure tt) p
      else if error == 0
      then some (ok tt, p)
      else on_net disconnect p

  abbrev pub on_ibuf : {A : Type 0} → M Buf A → E (Net × S) A
  on_ibuf m = on_net (lift (λ n. n.ibuf) (λ b n. record n { ibuf = b }) m)

  unfoldable pub read_done : ℕ → E (Net × S) (Unit {0})
  unfolding read_end
  read_done error = if error == 0 then readcb >>= read_end else read_end error

  -- kcn_net_read_cb
  unfoldable pub read_cb : Events → List ReadResult → E (Net × S) (Unit {0})
  unfolding read_done event_check
  read_cb ev rs = do
    go ← on_net (event_check ev.read ev)
    if go then (do x ← on_ibuf (read rs); read_done x.0) else pure tt

-- What malloc() answers for the copy of a buffer: a block of its length.
unfoldable pub block_for : List Bool → ℕ → Option (List ℕ) × List Bool
block_for [] n = (some (replicate n 0), [])
block_for (true ∷ l) n = (some (replicate n 0), l)
block_for (false ∷ l) n = (none, l)

unfoldable pub enqueued : Buf → E Net (Unit {0})
unfolding block_for
enqueued b n =
    let m = block_for n.mallocs (len b) in
    let r = enqueue m.0 b n.obufq in
    let n' = record n { obufq = r.1; mallocs = m.1 } in
    if r.0 then some (ok tt, n') else some (bad enomem, n')

-- kcn_net_write in each state
unfoldable pub net_write_in : Phase → Buf → E Net (Unit {0})
unfolding enqueued
net_write_in disconnected b = fail enetdown
net_write_in other b = enqueued b >> write_enable

unfoldable pub net_write : Buf → E Net (Unit {0})
unfolding net_write_in
net_write b n = net_write_in n.state b n

-- The head of the queue once it was written from. The wire has as many bytes more of those offered as
-- write() said that it took, wherever the buffer stands then.
unfoldable pub written : List WriteResult → Buf → Buf → Net → Net
written ws b b' n = record n {
  obufq = put_back b' n.obufq;
  wire = n.wire ++ take (sent (b.ep - b.sp) (next_answer ws).0) (drop_bytes b.sp b.bytes);
}

-- A buffer that is empty leaves the queue.
unfoldable pub drop_empty : Buf → E Net (Unit {0})
drop_empty b n = elim (trailingdata b) [
  | none ↦ none
  | some (t, b') ↦
      if t == 0
      then elim (drop n.obufq) [ none ↦ none | some q ↦ some (ok tt, record n { obufq = q }) ]
      else some (ok tt, n)
]

-- What a round of the loop does with the error of the writing, with the rounds after it.
unfoldable pub write_done : ℕ → Buf → E Net (Unit {0}) → E Net (Unit {0})
unfolding drop_empty
write_done error b more =
    if error == eagain
    then attempt write_enable >> pure tt
    else if error == 0
    then drop_empty b >> more
    else disconnect

-- The loop of kcn_net_write_cb. Each round that is not the last takes an answer of write(), so the fuel
-- is enough that exceeds their number.
unfoldable pub write_loop : ℕ → List WriteResult → E Net (Unit {0})
unfolding write_done written
write_loop zero ws n = none
write_loop (suc fuel) ws n = elim (fetch n.obufq) [
  | none ↦ some (ok tt, n)
  | some b ↦ elim (write ws b) [
    | none ↦ none
    | some (x, b') ↦ write_done x.0 b' (write_loop fuel x.1) (written ws b b' n)
  ]
]

-- Whether a timeout without a write is taken for the end of the waiting.
unfoldable pub wrong_timeout : Phase → Events → Bool
wrong_timeout pending ev = ev.timeout && not ev.write
wrong_timeout other ev = false

-- kcn_net_write_cb
unfoldable pub write_cb : Events → ℕ → List WriteResult → E Net (Unit {0})
unfolding write_loop wrong_timeout event_check
write_cb ev fuel ws n =
    if wrong_timeout n.state ev
    then state_change established n
    else (do go ← event_check ev.write ev; if go then write_loop fuel ws else pure tt) n
