-- ===== src/Net/States.antt =====
-- The changes of a connection's state (lib/kcn_net.c) keep its invariant.
use mathlib.Core.Path.{subst}
use kcn.Common.{suc, ◌≡◌, refl, sym, [], some, false, arith, Outcome, ok}
use kcn.Common.Fallible.{◌>>◌}
use kcn.Net.Defs.{
  Net, Phase, initial, pending, established, disconnected, read_enable, read_enable_in, changed,
  state_change, disconnect, disconnect_in,
}
use kcn.Net.Sound.{Suits, IsSound, IsUp, Same, same, sound, read_enabled}

-- What enabling the reading leaves of a connection that is up.
abbrev pub Reads : Net → Net → Type 0
Reads n n' = IsSound n' × IsUp n'.state × Same n n' × (n'.writing ≡ n.writing)

read_enable_at :
    (p : Phase) {n : Net}
    → IsSound n
    → IsUp p
    → n.state ≡ p
    → Suits p n.reading n.writing n.closes
    → (n' : Net) × (o : Outcome (Unit {0})) × (read_enable_in p n ≡ some (o, n')) × Reads n n'
unfolding read_enable_in
read_enable_at disconnected s u q h = elim u [ ]
read_enable_at established {n} s u q h =
    let (n', o, e, t, q', k, w, _) = read_enabled n.reading s h q in
    (n', o, e, (t, subst IsUp (sym q') tt, k, w))
read_enable_at pending {n} s u q h = (n, ok tt, refl, (s, subst IsUp (sym q) tt, same n, refl))
read_enable_at initial {n} s u q h = (
  record n { state = pending },
  ok tt,
  refl,
  (sound pending n.reading n.writing n.closes n.adds s h, tt, same n, refl),
)

-- Enabling the reading of a connection that is up never aborts, and leaves it up.
pub read_enable_lem :
    {n : Net}
    → IsSound n
    → IsUp n.state
    → (n' : Net) × (o : Outcome (Unit {0})) × (read_enable n ≡ some (o, n')) × Reads n n'
unfolding read_enable
read_enable_lem {n} s u = read_enable_at n.state s u refl s.suits

abbrev pub Establishes : Net → Net → Type 0
Establishes n n' =
    IsSound n'
    × (n'.state ≡ established)
    × Same n n'
    × (n'.writing ≡ n.writing)
    × (n.adds ≡ [] → n'.adds ≡ n.adds)

establish_at :
    (p : Phase) {n : Net}
    → IsSound n
    → IsUp p
    → Suits p n.reading n.writing n.closes
    → (n' : Net) × (changed p established (record n { state = established }) ≡ some (ok tt, n'))
      × Establishes n n'
unfolding changed read_enable read_enable_in
establish_at disconnected s u h = elim u [ ]
establish_at established {n} s u h = (
  record n { state = established },
  refl,
  (sound established n.reading n.writing n.closes n.adds s h, refl, same n, refl, λ h. refl),
)
establish_at initial {n} s u h = (
  record n { state = established },
  refl,
  (sound established n.reading n.writing n.closes n.adds s h.1, refl, same n, refl, λ h. refl),
)
establish_at pending {n} s u h =
    let (n', o, e, t, q, k, w, z) =
      read_enabled n.reading {n = record n { state = established }}
        (sound established n.reading n.writing n.closes n.adds s h.1) h.1 refl in
    (n', rw (◌>>◌, e) refl, (t, q, k, w, z))

-- A connection that is up can be established.
pub establish_lem :
    {n : Net}
    → IsSound n
    → IsUp n.state
    → (n' : Net) × (state_change established n ≡ some (ok tt, n')) × Establishes n n'
unfolding state_change
establish_lem {n} s u = establish_at n.state s u s.suits

abbrev pub Disconnects : Net → Net → Type 0
Disconnects n n' = IsSound n' × (n'.state ≡ disconnected) × Same n n'

downed :
    {n : Net}
    → IsSound n
    → n.closes ≡ 0
    → Disconnects n
        (record n { state = disconnected; reading = false; writing = false; closes = suc n.closes })
downed {n} s c =
    (sound disconnected false false (suc n.closes) n.adds s (refl, refl, omega arith), refl, same n)

changed_down : (p : Phase) (n : Net) → changed p disconnected n ≡ some (ok tt, n)
unfolding changed
changed_down initial n = refl
changed_down pending n = refl
changed_down established n = refl
changed_down disconnected n = refl

disconnect_at :
    (p : Phase) {n : Net}
    → IsSound n
    → n.state ≡ p
    → Suits p n.reading n.writing n.closes
    → (n' : Net) × (disconnect_in p n ≡ some (ok tt, n')) × Disconnects n n'
unfolding disconnect_in state_change
disconnect_at disconnected {n} s q h = (n, refl, (s, q, same n))
disconnect_at initial {n} s q h = (_, changed_down n.state _, downed s h.1)
disconnect_at pending {n} s q h = (_, changed_down n.state _, downed s h.1)
disconnect_at established {n} s q h = (_, changed_down n.state _, downed s h)

-- Disconnecting takes the events away and closes the descriptor, once.
pub disconnect_lem :
    {n : Net} → IsSound n → (n' : Net) × (disconnect n ≡ some (ok tt, n')) × Disconnects n n'
unfolding disconnect
disconnect_lem {n} s = disconnect_at n.state s refl s.suits
