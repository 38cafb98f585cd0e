-- ===== src/Net/Life.antt =====
-- The life of a connection (lib/kcn_net.c): its states are reached from a new connection by calls of its
-- owner and callbacks of the event library, in any order and with any answers of the system.
use mathlib.Core.Path.{subst}
use kcn.Common.{
  ℕ, suc, ◌≡◌, refl, sym, List, length, some, Option, Bool, true, false, arith, Outcome, ok, bad,
  enetdown, M, ◌⊎◌, inl, inr,
}
use kcn.Common.Fallible.{E}
use kcn.Buf.{Buf, ReadResult, WriteResult}
use kcn.Buf.View.{IsValid}
use kcn.Net.Defs.{
  Net, Phase, initial, pending, established, disconnected, Events, read_enable, disconnect,
}
use kcn.Net.Io.{
  with_obuf, net_write_in, fire_read, fire_write, net_write, write_cb, read_cb, wrong_timeout,
}
use kcn.Net.Sound.{IsSound, IsUp, Suits}
use kcn.Net.States.{establish_lem, read_enable_lem, disconnect_lem}
use kcn.Net.Drain.{write_cb_lem}
use kcn.Net.Steps.{net_write_lem}
use kcn.Net.Receive.{IsReader, Sounds, read_cb_lem, with_obuf_lem}

Suits-fire_read : (p : Phase) (r w : Bool) (c : ℕ) → Suits p r w c → Suits p false w c
Suits-fire_read initial r w c h = (refl, h.1)
Suits-fire_read pending r w c h = (refl, h.1)
Suits-fire_read established r w c h = h
Suits-fire_read disconnected r w c h = (refl, h.1, h.2)

Suits-fire_write : (p : Phase) (r w : Bool) (c : ℕ) → Suits p r w c → Suits p r false c
Suits-fire_write initial r w c h = h
Suits-fire_write pending r w c h = h
Suits-fire_write established r w c h = h
Suits-fire_write disconnected r w c h = (h.0, refl, h.2)

reading_state_lem : (p : Phase) (r w : Bool) (c : ℕ) → Suits p r w c → r ≡ true → IsUp p
reading_state_lem initial r w c h e = tt
reading_state_lem pending r w c h e = tt
reading_state_lem established r w c h e = tt
reading_state_lem disconnected r w c h e = cc

writing_state_lem : (p : Phase) (r w : Bool) (c : ℕ) → Suits p r w c → w ≡ true → IsUp p
writing_state_lem initial r w c h e = tt
writing_state_lem pending r w c h e = tt
writing_state_lem established r w c h e = tt
writing_state_lem disconnected r w c h e = cc

fire_read-IsSound : {n : Net} → IsSound n → IsSound (fire_read n)
unfolding fire_read
fire_read-IsSound {n} s = record {
  suits = Suits-fire_read n.state n.reading n.writing n.closes s.suits;
  ibuf = s.ibuf;
  obuf = s.obuf;
  queue = s.queue;
}

fire_write-IsSound : {n : Net} → IsSound n → IsSound (fire_write n)
unfolding fire_write
fire_write-IsSound {n} s = record {
  suits = Suits-fire_write n.state n.reading n.writing n.closes s.suits;
  ibuf = s.ibuf;
  obuf = s.obuf;
  queue = s.queue;
}

module _ {S : Type 0} (cb : E (Net × S) ℕ) where
  -- The owner enables the reading, puts a message into its buffer for output, sends a buffer, or takes the
  -- connection down; the event library calls back for an event that is pending.
  pub data Step : Net × S → Net × S → Type 0 where
    enable :
        {n n' : Net} {s : S} (o : Outcome (Unit {0}))
        → IsUp n.state
        → read_enable n ≡ some (o, n')
        → Step (n, s) (n', s)
    fill :
        {n n' : Net} {s : S} (m : M Buf (Unit {0})) (b : Buf)
        → with_obuf m n ≡ some (ok b, n')
        → IsValid b
        → Step (n, s) (n', s)
    send :
        {n n' : Net} {s : S} (b : Buf) (o : Outcome (Unit {0}))
        → IsValid b
        → net_write b n ≡ some (o, n')
        → Step (n, s) (n', s)
    close :
        {n n' : Net} {s : S} (o : Outcome (Unit {0}))
        → disconnect n ≡ some (o, n')
        → Step (n, s) (n', s)
    readable :
        {n : Net} {s : S} {p : Net × S} (ev : Events) (rs : List ReadResult)
        (o : Outcome (Unit {0}))
        → n.reading ≡ true
        → read_cb cb ev rs (fire_read n, s) ≡ some (o, p)
        → Step (n, s) p
    writable :
        {n n' : Net} {s : S} (ev : Events) (ws : List WriteResult) (o : Outcome (Unit {0}))
        → n.writing ≡ true
        → write_cb ev (suc (length ws)) ws (fire_write n) ≡ some (o, n')
        → Step (n, s) (n', s)

  pub data Reach (p : Net × S) : Net × S → Type 0 where
    here : Reach p p
    next : {q r : Net × S} → Reach p q → Step q r → Reach p r

result_eq {ℓ} :
    {A B : Type ℓ} {m : Option (A × B)} {a b : A} {x y : B}
    → m ≡ some (a, x)
    → m ≡ some (b, y)
    → x ≡ y
result_eq e f = cc

Phase-cases : (p : Phase) → IsUp p ⊎ (p ≡ disconnected)
Phase-cases disconnected = inr refl
Phase-cases initial = inl tt
Phase-cases pending = inl tt
Phase-cases established = inl tt

-- kcn_net_write on any sound connection, one that is down included
net_write-IsSound :
    (b : Buf) {n n' : Net} {o : Outcome (Unit {0})}
    → IsSound n
    → IsValid b
    → net_write b n ≡ some (o, n')
    → IsSound n'
unfolding net_write net_write_in
net_write-IsSound b {n} {n'} s v e = elim (Phase-cases n.state) [
  | inl u ↦ let (m, o', f, (t, _, _, _)) = net_write_lem b s u v in subst IsSound (result_eq f e) t
  | inr d ↦
      let f : net_write b n ≡ some (bad enetdown, n) = rw (net_write, d) refl in
      subst IsSound (result_eq f e) s
]

module _ {S : Type 0} (cb : E (Net × S) ℕ) (r : IsReader cb) where
  Step-IsSound : {p q : Net × S} → Step cb p q → IsSound p.0 → IsSound q.0
  unfolding fire_read fire_write
  Step-IsSound (enable {n} o u e) s =
      let (n', o', f, (t, _, _, _)) = read_enable_lem s u in subst IsSound (result_eq f e) t
  Step-IsSound (fill m b e v) s = with_obuf_lem m s v e
  Step-IsSound (send b o v e) s = net_write-IsSound b s v e
  Step-IsSound (close o e) s =
      let (n', f, (t, _, _)) = disconnect_lem s in subst IsSound (result_eq f e) t
  Step-IsSound (readable {n} {s = d} ev rs o h e) s = subst Sounds e (
      read_cb_lem cb r ev rs (fire_read n, d) (fire_read-IsSound s)
        (reading_state_lem n.state n.reading n.writing n.closes s.suits h))
  Step-IsSound (writable {n} ev ws o h e) s =
      let (n', f, t, _, _) =
        write_cb_lem ev ws (fire_write-IsSound s)
          (writing_state_lem n.state n.reading n.writing n.closes s.suits h) in
      subst IsSound (result_eq f e) t

  -- In every state that is reached from a sound connection, where the callback of its owner keeps a connection
  -- that is up sound and up: the connection is sound.
  pub Reach-IsSound : {p q : Net × S} → IsSound p.0 → Reach cb p q → IsSound q.0
  Reach-IsSound s here = s
  Reach-IsSound s (next w t) = Step-IsSound t (Reach-IsSound s w)

wrong_timeout_lem :
    (p : Phase) (ev : Events)
    → p ≡ pending
    → ev.write ≡ false
    → ev.timeout ≡ true
    → wrong_timeout p ev ≡ true
unfolding wrong_timeout
wrong_timeout_lem pending ev e w t = ground arith
wrong_timeout_lem initial ev e w t = cc
wrong_timeout_lem established ev e w t = cc
wrong_timeout_lem disconnected ev e w t = cc

-- A sound connection that is waited for and gets a timeout of its writing event, without the event: it is
-- taken for established, what waited in the queue still waits, and no event is left that would write it.
pub write_cb_stalls :
    (ev : Events) (fuel : ℕ) (ws : List WriteResult) {n : Net}
    → IsSound n
    → n.state ≡ pending
    → ev.write ≡ false
    → ev.timeout ≡ true
    → (n' : Net) × (write_cb ev fuel ws (fire_write n) ≡ some (ok tt, n'))
      × (n'.state ≡ established)
      × (n'.obufq ≡ n.obufq)
      × (n'.writing ≡ false)
unfolding write_cb fire_write
write_cb_stalls ev fuel ws {n} s q w t =
    let (n', e, (_, q', k, x, _)) = establish_lem (fire_write-IsSound s) (subst IsUp (sym q) tt) in
    (n', rw (wrong_timeout_lem n.state ev q w t) e, q', k.0, x)
