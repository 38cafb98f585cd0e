-- ===== src/Net/Sound.antt =====
-- The invariant of a connection (lib/kcn_net.c), and the steps that keep it.
use mathlib.Core.Path.{subst}
use kcn.Common.{
  ℕ, ◌≡◌, ◌≢◌, refl, sym, List, [], ◌∷◌, some, Bool, true, false, Bool-cases, ◌==◌, inl, inr, ◌⊎◌,
  arith, Outcome, ok, bad,
}
use kcn.Buf.{init}
use kcn.Buf.View.{IsValid}
use kcn.Buf.Fifo.{AllValid}
use kcn.Net.Defs.{
  Net, Phase, initial, pending, established, disconnected, event_add, event_enable, write_enable,
}

-- Reading is enabled only on a connection that is established; one that is down has no event and its
-- descriptor was closed once, any other has its descriptor.
abbrev pub Suits : Phase → Bool → Bool → ℕ → Type 0
Suits initial r w c = (r ≡ false) × (c ≡ 0)
Suits pending r w c = (r ≡ false) × (c ≡ 0)
Suits established r w c = c ≡ 0
Suits disconnected r w c = (r ≡ false) × (w ≡ false) × (c ≡ 1)

pub record IsSound (n : Net) : Type 0 where
  pub suits : Suits n.state n.reading n.writing n.closes
  pub ibuf : IsValid n.ibuf
  pub obuf : IsValid (init n.obuf)
  pub queue : AllValid n.obufq

-- The state is up: no assertion of the code fails on it.
abbrev pub IsUp : Phase → Type 0
IsUp disconnected = ⊥
IsUp other = Unit {0}

-- The first answer of event_add() is an error.
abbrev pub Refuses : List ℕ → Type 0
Refuses [] = ⊥
Refuses (e ∷ l) = e ≢ 0

pub Suits-write : (p : Phase) (r w : Bool) (c : ℕ) → IsUp p → Suits p r w c → Suits p r true c
Suits-write initial r w c u h = h
Suits-write pending r w c u h = h
Suits-write established r w c u h = h
Suits-write disconnected r w c u h = elim u [ ]

Suits-read : {p : Phase} (w : Bool) (c : ℕ) → p ≡ established → c ≡ 0 → Suits p true w c
Suits-read w c q h = subst (λ p. Suits p true w c) (sym q) h

-- What leaves the queue, the bytes written and the buffers as they are.
abbrev pub Same : Net → Net → Type 0
Same n n' = (n'.obufq ≡ n.obufq) × (n'.wire ≡ n.wire) × (n'.ibuf ≡ n.ibuf) × (n'.obuf ≡ n.obuf)

pub same : (n : Net) → Same n n
same n = (refl, refl, refl, refl)

abbrev pub Added : Net → List ℕ → Net → Type 0
Added n l n' = IsSound n' × (n'.state ≡ n.state) × Same n n' × ((n'.writing ≡ true) ⊎ Refuses l)

-- The same connection with other events.
pub sound :
    {n : Net} (p : Phase) (r w : Bool) (c : ℕ) (l : List ℕ)
    → IsSound n
    → Suits p r w c
    → IsSound (record n { state = p; reading = r; writing = w; closes = c; adds = l })
sound p r w c l s h = record { suits = h; ibuf = s.ibuf; obuf = s.obuf; queue = s.queue }

write_event_lem :
    (l : List ℕ) {n : Net}
    → IsSound n
    → IsUp n.state
    → (n' : Net) × (o : Outcome (Unit {0})) × (event_add (λ m. record m { writing = true }) l n
        ≡ some (o, n'))
      × Added n l n'
unfolding event_add
write_event_lem [] {n} s u = (
  record n { writing = true },
  ok tt,
  refl,
  (
    sound n.state n.reading true n.closes n.adds s
        (Suits-write n.state n.reading n.writing n.closes u s.suits),
    refl,
    same n,
    inl refl,
  ),
)
write_event_lem (e ∷ l) {n} s u = elim (Bool-cases (e == 0)) [
  | inl z ↦ (
    record n { adds = l; writing = true },
    ok tt,
    rw z refl,
    (
      sound n.state n.reading true n.closes l s
          (Suits-write n.state n.reading n.writing n.closes u s.suits),
      refl,
      same n,
      inl refl,
    ),
  )
  | inr z ↦ (
    record n { adds = l },
    bad e,
    rw z refl,
    (sound n.state n.reading n.writing n.closes l s s.suits, refl, same n, inr (ground arith)),
  )
]

write_enabled :
    (b : Bool) {n : Net}
    → IsSound n
    → IsUp n.state
    → n.writing ≡ b
    → (n' : Net) × (o : Outcome (Unit {0})) × (event_enable b (λ m. record m { writing = true }) n
        ≡ some (o, n'))
      × Added n n.adds n'
unfolding event_enable
write_enabled true {n} s u z = (n, ok tt, refl, (s, refl, same n, inl z))
write_enabled false {n} s u z = write_event_lem n.adds s u

-- Enabling the writing of a connection that is up leaves it enabled, or the event library refuses.
pub write_enable_lem :
    {n : Net}
    → IsSound n
    → IsUp n.state
    → (n' : Net) × (o : Outcome (Unit {0})) × (write_enable n ≡ some (o, n')) × Added n n.adds n'
unfolding write_enable
write_enable_lem {n} s u = write_enabled n.writing s u refl

read_added :
    (l : List ℕ) {n : Net}
    → IsSound n
    → n.closes ≡ 0
    → n.state ≡ established
    → (n' : Net) × (o : Outcome (Unit {0})) × (event_add (λ m. record m { reading = true }) l n
        ≡ some (o, n'))
      × IsSound n'
      × (n'.state ≡ established)
      × Same n n'
      × (n'.writing ≡ n.writing)
      × (l ≡ [] → n'.adds ≡ n.adds)
unfolding event_add
read_added [] {n} s c q = (
  record n { reading = true },
  ok tt,
  refl,
  sound n.state true n.writing n.closes n.adds s (Suits-read n.writing n.closes q c),
  q,
  same n,
  refl,
  λ h. refl,
)
read_added (e ∷ l) {n} s c q = elim (Bool-cases (e == 0)) [
  | inl z ↦ (
    record n { adds = l; reading = true },
    ok tt,
    rw z refl,
    sound n.state true n.writing n.closes l s (Suits-read n.writing n.closes q c),
    q,
    same n,
    refl,
    λ h. cc,
  )
  | inr z ↦ (
    record n { adds = l },
    bad e,
    rw z refl,
    sound n.state n.reading n.writing n.closes l s s.suits,
    q,
    same n,
    refl,
    λ h. cc,
  )
]

pub read_enabled :
    (b : Bool) {n : Net}
    → IsSound n
    → n.closes ≡ 0
    → n.state ≡ established
    → (n' : Net) × (o : Outcome (Unit {0})) × (event_enable b (λ m. record m { reading = true }) n
        ≡ some (o, n'))
      × IsSound n'
      × (n'.state ≡ established)
      × Same n n'
      × (n'.writing ≡ n.writing)
      × (n.adds ≡ [] → n'.adds ≡ n.adds)
unfolding event_enable
read_enabled true {n} s c q = (n, ok tt, refl, s, q, same n, refl, λ h. refl)
read_enabled false {n} s c q = read_added n.adds s c q
