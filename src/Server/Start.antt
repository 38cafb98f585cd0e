-- ===== src/Server/Start.antt =====
-- The start of the server, kcndb_server_start (kcndbd/kcndb_server.c).
mod Tests
use kcn.Common.{
  ℕ, zero, suc, ◌+◌, ◌≤◌, ◌<◌, ◌^◌, ◌≡◌, refl, ap, sym, ◌∙◌, List, [], ◌∷◌, ◌++◌, length, Option,
  some, none, Bool, true, false, ◌⊎◌, inl, inr, arith, Outcome, ok, bad, append-nil,
}
use mathlib.Core.Path.{subst}
use native.Mathlib.Decide.{dec_lt}
use kcn.Sockets.{Sockaddr, ListenCalls, socket_listen, socket_close, af_inet6}
use kcn.Sockets.Owner.{
  Owned, no_descriptor, returned, closed, Listens, ListenFails, socket_listen-Owned,
}
use kcn.Server.Threads.{
  ThreadStatus, running, Worker, Daemon, htons, thread_init, server_stop, start_workers, started,
  start_on, start_at, server_start,
}

-- Two swaps of the bytes of a port give the port.
pub htons-htons : (v : ℕ) → v < 2 ^ 16 → htons (htons v) ≡ v
unfolding htons
htons-htons v h = omega arith

-- A thread that serves with its number on a socket.
abbrev pub Serves : ℕ → ℕ → Worker → Type 0
Serves s n kt = (kt.status ≡ running) × (kt.number ≡ n) × (kt.listenfd ≡ some s) × (kt.evb ≡ false)

-- The threads from number `n` on serve, each with its number.
abbrev pub AllServe : ℕ → ℕ → List Worker → Type 0
AllServe s n [] = Unit
AllServe s n (kt ∷ kts) = Serves s n kt × AllServe s (suc n) kts

-- What the loop of kcndb_server_start makes of the threads from number `n` on.
pub data Launched (create : ℕ → Outcome (Unit {0})) (s n : ℕ) (kts : List Worker)
    : Bool × List Worker → Type 0 where
  all_serve :
      (kts' : List Worker)
      → AllServe s n kts'
      → length kts' ≡ length kts
      → ((i : ℕ) → n ≤ i → i < n + length kts → create i ≡ ok tt)
      → Launched create s n kts (true, kts')
  one_fails :
      (before : List Worker) (kt : Worker) (rest old : List Worker) (kt0 : Worker) (e : ℕ)
      → create (n + length before) ≡ bad e
      → AllServe s n before
      → kt.number ≡ n + length before
      → kts ≡ old ++ (kt0 ∷ rest)
      → length old ≡ length before
      → Launched create s n kts (false, before ++ (kt ∷ rest))

-- The worker as a thread starts with it.
abbrev initial : ℕ → ℕ → Worker → Worker
initial s n kt = record kt { number = n; listenfd = some s; evb = false }

from_first :
    (create : ℕ → Outcome (Unit {0})) (n m : ℕ)
    → create n ≡ ok tt
    → ((i : ℕ) → suc n ≤ i → i < suc n + m → create i ≡ ok tt)
    → (i : ℕ) → n ≤ i
    → i < n + suc m
    → create i ≡ ok tt
from_first create n m h k i a b = elim (dec_lt n i) [
  | yes l ↦ k i (omega arith) (omega arith)
  | no l ↦ let e : i ≡ n = omega arith in rw e h
]

launched :
    (create : ℕ → Outcome (Unit {0})) (s n : ℕ) (kt : Worker) (kts : List Worker)
    (o : Outcome (Unit {0})) {r : Bool × List Worker}
    → create n ≡ o
    → Launched create s (suc n) kts r
    → Launched create s n (kt ∷ kts) (elim o [
      | bad e ↦ (false, initial s n kt ∷ kts)
      | ok u ↦ (r.0, record (initial s n kt) { status = running } ∷ r.1)
    ])
launched create s n kt kts (bad e) h l =
    let z : n + 0 ≡ n = omega arith in
    one_fails [] (initial s n kt) kts [] kt e (ap create z ∙ h) tt (omega arith) refl refl
launched create s n kt kts (ok tt) h (all_serve kts' a l c) =
    all_serve (record (initial s n kt) { status = running } ∷ kts') ((refl, refl, refl, refl), a)
      (ap suc l) (from_first create n (length kts) h c)
launched create s n kt kts (ok tt) h (one_fails before k rest old k0 e c a m l q) =
    let z : n + suc (length before) ≡ suc n + length before = omega arith in
    one_fails (record (initial s n kt) { status = running } ∷ before) k rest (kt ∷ old) k0 e
      (ap create z ∙ c) ((refl, refl, refl, refl), a) (omega (arith, m)) (ap (λ r. kt ∷ r) l)
      (ap suc q)

start_workers_lem :
    (create : ℕ → Outcome (Unit {0})) (s n : ℕ) (kts : List Worker)
    → Launched create s n kts (start_workers create (some s) n kts)
unfolding start_workers thread_init
start_workers_lem create s n [] = all_serve [] tt refl (λ i a b. absurd (omega (arith, a, b)))
start_workers_lem create s n (kt ∷ kts) =
    launched create s n kt kts (create n) refl (start_workers_lem create s (suc n) kts)

-- The address on which the server listens: the port of the daemon, on any address of IPv6.
abbrev pub address : Daemon → Sockaddr
address d = record { family = af_inet6; port = d.port }

-- What kcndb_server_start makes of a daemon: no socket is made; or it does not listen, and is closed; or it
-- listens, and there are threads that all serve on it; or it listens, a thread is not created, and it is
-- closed.
pub data Begun (calls : ListenCalls) (create : ℕ → Outcome (Unit {0})) (d : Daemon)
    : Option (Bool × Daemon) → Type 0 where
  no_socket :
      (e : ℕ)
      → calls.socket ≡ bad e
      → Begun calls create d (some (false, record d { socket = none; closed = d.closed }))
  unheard :
      (s e : ℕ)
      → calls.socket ≡ ok s
      → ListenFails calls af_inet6 (address d) e
      → Begun calls create d (some (false, record d { socket = none; closed = s ∷ d.closed }))
  begun :
      (s : ℕ) (kts : List Worker)
      → calls.socket ≡ ok s
      → Listens calls af_inet6 (address d)
      → Launched create s 1 d.workers (true, kts)
      → Begun calls create d (some (true, record d { socket = some s; workers = kts }))
  stopped :
      (s : ℕ) (kts : List Worker)
      → calls.socket ≡ ok s
      → Listens calls af_inet6 (address d)
      → Launched create s 1 d.workers (false, kts)
      → Begun calls create d
          (some (false, record d { socket = none; workers = kts; closed = s ∷ d.closed }))

began :
    (calls : ListenCalls) (create : ℕ → Outcome (Unit {0})) (d : Daemon) (s : ℕ) (b : Bool)
    (kts : List Worker)
    → calls.socket ≡ ok s
    → Listens calls af_inet6 (address d)
    → Launched create s 1 d.workers (b, kts)
    → Begun calls create d (some (started (b, kts) (record d { socket = some s })))
unfolding started server_stop socket_close
began calls create d s true kts h q l = begun s kts h q l
began calls create d s false kts h q l = stopped s kts h q l

-- Stopping without a socket closes nothing.
stop_lem :
    (d : Daemon) (l : List ℕ)
    → d.socket ≡ none
    → server_stop (record d { closed = l }) ≡ record d { socket = none; closed = l }
unfolding server_stop socket_close
stop_lem d l k = ap (λ (o : Option ℕ). record d { socket = none; closed = socket_close o l }) k

listened :
    (calls : ListenCalls) (create : ℕ → Outcome (Unit {0})) (d : Daemon) (o : Outcome ℕ)
    (r : Outcome ℕ × List ℕ)
    → calls.socket ≡ o
    → d.socket ≡ none
    → Owned (Listens calls af_inet6 (address d)) (ListenFails calls af_inet6 (address d)) o r
    → Begun calls create d (some (start_on create d r))
unfolding start_on
listened calls create d o r h k (no_descriptor e) =
    subst (λ x. Begun calls create d (some (false, x))) (sym (stop_lem d ([] ++ d.closed) k))
      (no_socket e h)
listened calls create d o r h k (returned s q) =
    let w = start_workers create (some s) 1 d.workers in
    began calls create d s w.0 w.1 h q (start_workers_lem create s 1 d.workers)
listened calls create d o r h k (closed s e q) =
    subst (λ x. Begun calls create d (some (false, x))) (sym (stop_lem d ((s ∷ []) ++ d.closed) k))
      (unheard s e h q)

-- What kcndb_server_start does where there is no socket yet, whatever the system answers and whatever the
-- variable of the descriptor held. Without a socket it fails. Where the socket does not listen, since
-- setting IPV6_V6ONLY, bind() to the port on an address of IPv6, or listen() failed, it fails and
-- the socket is closed, once. Otherwise the threads are made one after the other: where all are,
-- it succeeds, and each serves on the socket, which listens, with its number; where one is not, it
-- fails, those before it serve, those behind it are as they were, and the socket is closed once.
pub server_start_lem :
    (garbage : Option ℕ) (calls : ListenCalls) (create : ℕ → Outcome (Unit {0})) (d : Daemon)
    → d.socket ≡ none
    → Begun calls create d (server_start garbage calls create d)
unfolding server_start start_at
server_start_lem garbage calls create d h =
    subst (λ o. Begun calls create d (start_at o garbage calls create d)) (sym h)
      (listened calls create d calls.socket (socket_listen garbage calls af_inet6 d.port) refl h
        (socket_listen-Owned garbage calls af_inet6 d.port (inr refl)))
