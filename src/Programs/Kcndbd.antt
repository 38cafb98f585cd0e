-- ===== src/Programs/Kcndbd.antt =====
-- kcndbd/kcndb_main.c: the options of the server and its start.
use kcn.Common.{
  ℕ, ◌≤◌, ◌≡◌, refl, ap, List, [], ◌∷◌, ◌++◌, map, Option, some, none, Bool, true, false, leb, not,
  ◌==◌, ◌&&◌, if◌then◌else◌, Outcome, ok, bad, arith, Bool-cases, ◌⊎◌, inl, inr,
}
use kcn.Common.Text.{codes}
use kcn.Server.Threads.{htons, port_min, Daemon}
use kcn.Str.{strtoull, check_number}
use kcn.Programs.Options.{Given, Parsed, usage, aborted, parsed, options, priority_increment}

-- The variables that the options set: dflag, kcndb_db_path where it is not the default, fflag,
-- kcndb_server_port in network order, and the verbosity.
pub record Settings : Type 0 where
  pub dflag : Bool
  pub path : Option (List ℕ)
  pub fflag : Bool
  pub port : ℕ
  pub priority : ℕ

-- KCNDB_NET_PORT_MAX
abbrev pub port_max : ℕ
port_max = 65535

-- kcndb_server_port_set
unfoldable pub set_port : Settings → Outcome ℕ → Parsed Settings
set_port s (bad e) = usage (some (codes "invalid TCP port number"))
set_port s (ok v) = if leb port_min v then parsed (record s { port = htons v }) else aborted

-- The switch of main()
unfoldable pub daemon_option : Given → Settings → Parsed Settings
unfolding set_port priority_increment
daemon_option g s =
    if g.option == b'd'
    then (if s.dflag
        then usage (some (codes "-d can be specified only once"))
        else parsed (record s { path = some g.value }))
    else if g.option == b'f'
    then parsed (record s { fflag = true })
    else if g.option == b'p'
    then set_port s (strtoull g.value port_min port_max)
    else if g.option == b'v'
    then parsed (record s { priority = priority_increment s.priority })
    else usage none

unfoldable pub defaults : Settings
defaults = record { dflag = false; path = none; fflag = false; port = htons 9410; priority = 0 }

-- How main() ends: with the usage, in the loop of the server, or by a failed assertion.
pub data Ended : Type 0 where
  shown : Option (List ℕ) → Ended
  serving : Daemon → Ended
  abort : Ended

unfoldable pub launch : Settings → Bool → Bool → Option (Bool × Daemon) → Ended
launch s signals daemonized start =
    if not signals
    then shown (some (codes "cannot initialize signals"))
    else if not s.fflag && not daemonized
    then shown (some (codes "cannot daemonize"))
    else (elim start [
      | none ↦ abort
      | some (b, d) ↦ if b then serving d else shown (some (codes "cannot launch server"))
    ])

-- main(), over what signal() and daemon() answer and what kcndb_server_start makes of the settings
unfoldable pub daemon_main : List Given → Bool → Bool → (Settings → Option (Bool × Daemon)) → Ended
unfolding options daemon_option defaults launch
daemon_main gs signals daemonized start = elim (options daemon_option gs defaults) [
  | usage m ↦ shown m
  | aborted ↦ abort
  | parsed s ↦ launch s signals daemonized (start s)
]

-- The option `-d` with a directory.
abbrev pub d_option : List ℕ → Given
d_option v = record { option = b'd'; value = v }

option_d :
    (v : List ℕ) (s : Settings)
    → s.dflag ≡ false
    → daemon_option (d_option v) s ≡ parsed (record s { path = some v })
unfolding daemon_option
option_d v s h =
    ap
      (λ (b : Bool).
        let r : Parsed Settings = parsed (record s { path = some v }) in
        if b then usage (some (codes "-d can be specified only once")) else r)
      h

-- The option `-d` can be given any number of times, though its message says that it can be specified only
-- once: the flag that is tested is never set, and the last directory is taken.
pub daemon_options-last :
    (vs : List (List ℕ)) (v : List ℕ) (s : Settings)
    → s.dflag ≡ false
    → options daemon_option (map d_option vs ++ (d_option v ∷ [])) s
      ≡ parsed (record s { path = some v })
unfolding options
daemon_options-last [] v s h = rw (options, option_d v s h) refl
daemon_options-last (w ∷ vs) v s h =
    rw (options, option_d w s h) (daemon_options-last vs v (record s { path = some w }) h)

-- The port of settings is a number from KCNDB_NET_PORT_MIN to KCNDB_NET_PORT_MAX in network order.
abbrev pub HasPort : Settings → Type 0
HasPort s = (v : ℕ) × (1 ≤ v) × (v ≤ port_max) × (s.port ≡ htons v)

-- What an option leaves: the usage, or settings with a port; no failed assertion.
abbrev pub Sane : Parsed Settings → Type 0
Sane (usage m) = Unit
Sane aborted = ⊥
Sane (parsed s) = HasPort s

in_bounds : (t : List ℕ) (lo hi : ℕ) {v : ℕ} → strtoull t lo hi ≡ ok v → (lo ≤ v) × (v ≤ hi)
unfolding strtoull check_number
in_bounds t lo hi h = ground arith

set_port-Sane :
    (s : Settings) (o : Outcome ℕ)
    → ((v : ℕ) → o ≡ ok v → (1 ≤ v) × (v ≤ port_max))
    → Sane (set_port s o)
unfolding set_port
set_port-Sane s (bad e) h = tt
set_port-Sane s (ok v) h =
    let (a, b) = h v refl in let e : leb port_min v ≡ true = ground arith in rw e (v, a, b, refl)

daemon_option-Sane : (g : Given) (s : Settings) → HasPort s → Sane (daemon_option g s)
unfolding daemon_option
daemon_option-Sane g s h = elim (Bool-cases (g.option == b'd')) [
  | inl a ↦ elim (Bool-cases s.dflag) [ inl b ↦ rw (a, b) tt | inr b ↦ rw (a, b) h ]
  | inr a ↦ elim (Bool-cases (g.option == b'f')) [
    | inl b ↦ rw (a, b) h
    | inr b ↦ elim (Bool-cases (g.option == b'p')) [
      | inl c ↦
          rw (a, b, c)
            (set_port-Sane s (strtoull g.value port_min port_max)
              (λ v e. in_bounds g.value port_min port_max e))
      | inr c ↦ elim (Bool-cases (g.option == b'v')) [
        | inl d ↦ rw (a, b, c, d) h
        | inr d ↦ rw (a, b, c, d) tt
      ]
    ]
  ]
]

options-Sane : (gs : List Given) (s : Settings) → HasPort s → Sane (options daemon_option gs s)
unfolding options
options-Sane [] s h = h
options-Sane (g ∷ gs) s h =
    further (daemon_option g s) (daemon_option-Sane g s h) (λ s' k. options-Sane gs s' k)
  where
    further :
        (p : Parsed Settings)
        → Sane p
        → ((s' : Settings) → HasPort s' → Sane (options daemon_option gs s'))
        → Sane (elim p [
          | usage m ↦ usage m
          | aborted ↦ aborted
          | parsed s' ↦ options daemon_option gs s'
        ])
    further (usage m) k rest = tt
    further aborted k rest = k
    further (parsed s') k rest = rest s' k

-- How the server's program may end: it shows the usage, or it serves with what kcndb_server_start has made of
-- settings with a port.
abbrev pub Proper : (Settings → Option (Bool × Daemon)) → Ended → Type 0
Proper start e =
    ((m : Option (List ℕ)) × (e ≡ shown m))
    ⊎ ((s : Settings) × (d : Daemon) × HasPort s × (start s ≡ some (true, d)) × (e ≡ serving d))

launch-Proper :
    (start : Settings → Option (Bool × Daemon)) (s : Settings) (a b : Bool)
    (r : Option (Bool × Daemon))
    → HasPort s
    → start s ≡ r
    → ((x : Bool × Daemon) × (r ≡ some x))
    → Proper start (launch s a b r)
unfolding launch
launch-Proper start s a b none h e (x, f) = absurd (cc)
launch-Proper start s a b (some (c, d)) h e k = elim (Bool-cases (not a)) [
  | inl f ↦ rw f (inl (_, refl))
  | inr f ↦ elim (Bool-cases (not s.fflag && not b)) [
    | inl g ↦ rw (f, g) (inl (_, refl))
    | inr g ↦ rw (f, g) (served c e)
  ]
]
  where
    served :
        (c : Bool)
        → start s ≡ some (c, d)
        → Proper start (if c then serving d else shown (some (codes "cannot launch server")))
    served true e = inr (s, d, h, e, refl)
    served false e = inl (_, refl)

-- The program of the server, on every command line and every answer of signal() and daemon(), where
-- kcndb_server_start returns for every port in range: no assertion fails. It shows the usage, or it
-- serves, on a port from 1 to 65535 that kcndb_server_start has taken in network order.
pub daemon_main_lem :
    (gs : List Given) (a b : Bool) (start : Settings → Option (Bool × Daemon))
    → ((s : Settings) → HasPort s → (x : Bool × Daemon) × (start s ≡ some x))
    → Proper start (daemon_main gs a b start)
unfolding daemon_main
daemon_main_lem gs a b start h =
    ended (options daemon_option gs defaults)
      (options-Sane gs defaults (9410, omega arith, omega arith, unfold defaults in refl))
  where
    ended :
        (p : Parsed Settings)
        → Sane p
        → Proper start
            (elim p [ usage m ↦ shown m | aborted ↦ abort | parsed s ↦ launch s a b (start s) ])
    ended (usage m) k = inl (m, refl)
    ended aborted k = absurd k
    ended (parsed s) k = launch-Proper start s a b (start s) k refl (h s k)
