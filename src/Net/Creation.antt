-- ===== src/Net/Creation.antt =====
-- kcn_net_new (lib/kcn_net.c) on every answer of the system.
use mathlib.Core.Path.{subst}
use kcn.Common.{
  ℕ, ◌<◌, ◌^◌, ◌≡◌, refl, sym, List, [], length, some, none, Option, Bool, true, false, arith,
  Outcome, ok, bad, enomem, ◌⊎◌, inl, inr, ◌&&◌, if◌then◌else◌,
}
use kcn.Common.Text.{strlcpy}
use kcn.Buf.{init, data_new}
use kcn.Buf.Queue.{purge}
use kcn.Net.Defs.{
  Net, Phase, initial, pending, established, disconnected, connection, new, new_with, destroyed,
  destroy,
}
use kcn.Net.Sound.{IsSound, IsUp, Suits, write_enable_lem}
use kcn.Net.States.{disconnect_lem}

connection-IsSound :
    (name i o adds : List ℕ) (mallocs : List Bool)
    → length i < 2 ^ 63
    → length o < 2 ^ 63
    → IsSound (connection name i o adds mallocs)
unfolding connection init data_new
connection-IsSound name i o adds mallocs h k = record {
  suits = (refl, refl);
  ibuf = omega arith;
  obuf = omega arith;
  queue = tt;
}

closes_of_down : (p : Phase) (r w : Bool) (c : ℕ) → p ≡ disconnected → Suits p r w c → c ≡ 1
closes_of_down disconnected r w c e h = h.2
closes_of_down initial r w c e h = cc
closes_of_down pending r w c e h = cc
closes_of_down established r w c e h = cc

-- A connection that is destroyed leaves its descriptor closed, once.
pub destroy_lem : {n : Net} → IsSound n → (n' : Net) × (destroy n ≡ some n') × (n'.closes ≡ 1)
unfolding destroy
destroy_lem {n} s =
    let (n', e, (t, q, _)) = disconnect_lem s in
    (
      record n' { obufq = purge n'.obufq },
      rw (destroy, e) refl,
      closes_of_down n'.state n'.reading n'.writing n'.closes q t.suits,
    )

destroyed_lem : (errno : ℕ) {n : Net} → IsSound n → destroyed errno n ≡ some (bad errno, 1)
unfolding destroyed
destroyed_lem errno {n} s = let (n', e, c) = destroy_lem s in rw (destroyed, e, c) refl

closes_of_up : (p : Phase) (r w : Bool) (c : ℕ) → IsUp p → Suits p r w c → c ≡ 0
closes_of_up disconnected r w c u h = elim u [ ]
closes_of_up initial r w c u h = h.1
closes_of_up pending r w c u h = h.1
closes_of_up established r w c u h = h

-- A new connection, sound and up, whose descriptor is open; or none, with the errno, and how often it was closed.
abbrev pub Created : ℕ → ℕ → Option (Outcome Net × ℕ) → Type 0
Created c errno m =
    ((n : Net) × (m ≡ some (ok n, 0)) × IsSound n × IsUp n.state) ⊎ (m ≡ some (bad errno, c))

Outcome-cases : (o : Outcome (Unit {0})) → (o ≡ ok tt) ⊎ ((e : ℕ) × (o ≡ bad e))
Outcome-cases (ok tt) = inl refl
Outcome-cases (bad e) = inr (e, refl)

new_with_lem :
    (errno : ℕ) (b : Bool) {n : Net}
    → IsSound n
    → IsUp n.state
    → Created 1 errno (new_with errno b n)
unfolding new_with
new_with_lem errno false s u = inr (destroyed_lem errno s)
new_with_lem errno true {n} s u =
    let (n', o, e, (t, q, _, _)) = write_enable_lem s u in
    let u' : IsUp n'.state = subst IsUp (sym q) u in
    let z = closes_of_up n'.state n'.reading n'.writing n'.closes u' t.suits in
    elim (Outcome-cases o) [
      | inl h ↦ inl (n', rw (new_with, e, h, z) refl, t, u')
      | inr (x, h) ↦ inr (rw (new_with, e, h) (destroyed_lem errno t))
    ]

-- The blocks of a connection are smaller than any object may be.
abbrev pub Fits : Option (List ℕ) → Type 0
Fits none = Unit {0}
Fits (some i) = length i < 2 ^ 63

-- kcn_net_new, on every answer of malloc() and of the event library: either it gives a sound connection
-- whose descriptor is open, or it fails; and then the descriptor is untouched if there was no memory
-- for the structure, and has been closed in every other case.
pub new_lem :
    (errno size : ℕ) (m : Bool) (i o : Option (List ℕ)) (r w : Bool) (name adds : List ℕ)
    (mallocs : List Bool)
    → Fits i
    → Fits o
    → Created
        (if m then 1 else 0)
        (if m then errno else enomem)
        (new errno size m i o r w name adds mallocs)
unfolding new connection
new_lem errno size false i o r w name adds mallocs h k = inr refl
new_lem errno size true none o r w name adds mallocs h k = inr (
    destroyed_lem errno
      (connection-IsSound (strlcpy name size) [] [] adds mallocs (omega arith) (omega arith)))
new_lem errno size true (some i) none r w name adds mallocs h k =
    inr (
      destroyed_lem errno
        (connection-IsSound (strlcpy name size) i [] adds mallocs h (omega arith)))
new_lem errno size true (some i) (some o) r w name adds mallocs h k =
    new_with_lem errno (r && w) (connection-IsSound (strlcpy name size) i o adds mallocs h k) tt
