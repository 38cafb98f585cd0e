-- ===== src/Net/Receive.antt =====
-- The reading of a connection (lib/kcn_net.c), whose callback is that of its owner, and the buffer of its
-- output.
use mathlib.Core.Path.{subst}
use kcn.Common.{
  ℕ, ◌≡◌, refl, sym, List, some, none, Bool-cases, ◌==◌, inl, inr, Outcome, ok, bad, eagain, M,
  Option, ltb, ◌-◌, arith,
}
use kcn.Common.Fallible.{E, ◌>>=◌, ◌>>◌, focus, attempt}
use kcn.Buf.{Buf, init, kbd, ReadResult, read, read_error, read_loop}
use kcn.Buf.View.{IsValid}
use kcn.Buf.Transfer.{read_lem, read_aborts}
use kcn.Net.Defs.{Net, Events}
use kcn.Net.Io.{with_obuf, read_cb, read_end, read_done, on_ibuf}
use kcn.Net.Checks.{event_seen, event_late, event_early}
use kcn.Net.Sound.{IsSound, IsUp}
use kcn.Net.States.{read_enable_lem, disconnect_lem, establish_lem}

-- Where a step has returned, the connection is sound; and it is sound and up.
abbrev pub Sounds : {A S : Type 0} → Option (A × (Net × S)) → Type 0
Sounds none = Unit {0}
Sounds (some (a, p)) = IsSound p.0

abbrev pub StaysUp : {A S : Type 0} → Option (A × (Net × S)) → Type 0
StaysUp none = Unit {0}
StaysUp (some (a, p)) = IsSound p.0 × IsUp p.0.state

-- What a callback of the reader keeps: where it returns, a connection that was sound and up is so still.
pub record IsReader {S : Type 0} (cb : E (Net × S) ℕ) : Type 0 where
  pub keeps : (p : Net × S) → IsSound p.0 → IsUp p.0.state → StaysUp (cb p)

module _ {S : Type 0} (cb : E (Net × S) ℕ) (r : IsReader cb) where
  read_end_lem :
      (error : ℕ) (p : Net × S)
      → IsSound p.0
      → IsUp p.0.state
      → (p' : Net × S) × (read_end cb error p ≡ some (ok tt, p')) × IsSound p'.0
  unfolding read_end
  read_end_lem error p s u = elim (Bool-cases (error == eagain)) [
    | inl z ↦
        let (n', o, e, (t, _, _, _)) = read_enable_lem s u in
        ((n', p.1), rw (z, focus, ◌>>◌, attempt, e) refl, t)
    | inr z ↦ elim (Bool-cases (error == 0)) [
      | inl y ↦ (p, rw (z, y) refl, s)
      | inr y ↦
          let (n', e, (t, _, _)) = disconnect_lem s in ((n', p.1), rw (z, y, focus, e) refl, t)
    ]
  ]

  called_back :
      (x : Option (Outcome ℕ × (Net × S)))
      → StaysUp x
      → Sounds (elim x as (λ y. Option (Outcome (Unit {0}) × (Net × S))) [
        | none ↦ none
        | some (o, p) ↦ elim o [ ok e ↦ read_end cb e p | bad e ↦ some (bad e, p) ]
      ])
  called_back none h = tt
  called_back (some (bad e, p)) (s, u) = s
  called_back (some (ok e, p)) (s, u) = let (p', x, t) = read_end_lem e p s u in rw x t

  read_done_lem :
      (error : ℕ) (p : Net × S) → IsSound p.0 → IsUp p.0.state → Sounds (read_done cb error p)
  unfolding read_done
  read_done_lem error p s u = elim (Bool-cases (error == 0)) [
    | inl z ↦ rw z (called_back (cb p) (r.keeps p s u))
    | inr z ↦ let (p', x, s') = read_end_lem error p s u in rw (z, x) s'
  ]

  -- What the reader has read into the buffer, with the callback and the end. A buffer that is full aborts.
  read_on :
      (rs : List ReadResult) (p : Net × S)
      → IsSound p.0
      → IsUp p.0.state
      → Sounds ((on_ibuf cb (read rs) >>= λ x. read_done cb x.0) p)
  read_on rs p s u = elim (Bool-cases (ltb (p.0.ibuf.ep - p.0.ibuf.sp) p.0.ibuf.size)) [
    | inr full ↦
        let e = read_aborts rs s.ibuf (ground (arith, s.ibuf)) in
        let y : (on_ibuf cb (read rs) >>= λ x. read_done cb x.0) p ≡ none = rw (◌>>=◌, e) refl in
        rw y tt
    | inl room ↦
        let (b, e, v, _, _, _, _) = read_lem rs s.ibuf (ground arith) in
        let n : Net = record (p.0) { ibuf = b } in
        let s' : IsSound n = record { suits = s.suits; ibuf = v; obuf = s.obuf; queue = s.queue } in
        let y : (on_ibuf cb (read rs) >>= λ x. read_done cb x.0) p
            ≡ read_done cb (read_error (read_loop rs).0) (n, p.1) =
          rw (◌>>=◌, e) refl in
        rw y (read_done_lem (read_error (read_loop rs).0) (n, p.1) s' u)
  ]

  -- kcn_net_read_cb on any events and any answers of read(), on a sound connection that is up.
  pub read_cb_lem :
      (ev : Events) (rs : List ReadResult) (p : Net × S)
      → IsSound p.0
      → IsUp p.0.state
      → Sounds (read_cb cb ev rs p)
  unfolding read_cb
  read_cb_lem ev rs p s u = elim (Bool-cases ev.read) [
    | inl yes_read ↦
        let (n', e, (t, q, k, _, _)) = establish_lem s u in
        rw (◌>>=◌, event_seen ev.read ev p.0 n' yes_read e)
          (read_on rs (n', p.1) t (subst IsUp (sym q) tt))
    | inr no_read ↦ elim (Bool-cases ev.timeout) [
      | inl late ↦
          let (n', e, (t, _, _)) = disconnect_lem s in
          rw (◌>>=◌, event_late ev.read ev p.0 n' no_read late e) t
      | inr early ↦ rw (◌>>=◌, event_early ev.read ev p.0 no_read early) s
    ]
  ]

emptied : {c : Buf} → IsValid c → IsValid (init (kbd c))
unfolding init kbd
emptied w = omega arith

-- kcn_net_obuf with an encoder that leaves a valid buffer
pub with_obuf_lem :
    (m : M Buf (Unit {0})) {n n' : Net} {b : Buf}
    → IsSound n
    → IsValid b
    → with_obuf m n ≡ some (ok b, n')
    → IsSound n'
unfolding with_obuf
with_obuf_lem m {n} {n'} {b} s v e = go (m (init n.obuf)) e
  where
    go :
        (x : Option (Unit {0} × Buf))
        → (elim x as (λ y. Option (Outcome Buf × Net)) [
          | none ↦ none
          | some (u, c) ↦ some (ok c, record n { obuf = kbd c })
        ])
          ≡ some (ok b, n')
        → IsSound n'
    go none f = cc
    go (some (u, c)) f =
        let same : c ≡ b = cc in
        let made : record n { obuf = kbd c } ≡ n' = cc in
        subst IsSound made (record {
          suits = s.suits;
          ibuf = s.ibuf;
          obuf = emptied (subst IsValid (sym same) v);
          queue = s.queue;
        })
