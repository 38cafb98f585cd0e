-- ===== src/Sockets/Owner.antt =====
-- Who has the descriptor of a socket behind the functions of lib/kcn_socket.c.
use kcn.Common.{
  ℕ, ◌/◌, ◌%◌, ◌^◌, ◌≡◌, ◌≢◌, refl, ◌∙◌, List, [], ◌∷◌, ◌++◌, replicate, ap, zero, suc, Option,
  some, none, ◌==◌, ◌⊎◌, inl, inr, Bool-cases, arith, Outcome, ok, bad, eintr, epfnosupport,
  einprogress,
}
use kcn.Sockets.Defs.{
  Sockaddr, af_inet, af_inet6, pf2af, af2pf, sockaddr_init, with_nonblock, socket_nonblock,
  nonblock_bit, finished, then_descriptor, and_then, ListenCalls, ConnectCalls, listen_on,
  listen_with, socket_listen, connected, connect_with, socket_connect, accept_loop, accept_with,
  socket_accept, named, socket_close, sockaddr_ntoa,
}

-- Of a call that may give a descriptor, when the calls on it have succeeded, when they have failed with an
-- errno, and what the function answers: the descriptor goes to the caller, or it is closed, once;
-- without a descriptor nothing is closed.
pub data Owned (Good : Type 0) (Failed : ℕ → Type 0) : Outcome ℕ → Outcome ℕ × List ℕ → Type 0 where
  no_descriptor : (e : ℕ) → Owned Good Failed (bad e) (bad e, [])
  returned : (s : ℕ) → Good → Owned Good Failed (ok s) (ok s, [])
  closed : (s e : ℕ) → Failed e → Owned Good Failed (ok s) (bad e, s ∷ [])

-- The outcome of the calls on a descriptor.
abbrev Settles : (Good : Type 0) → (ℕ → Type 0) → Outcome (Unit {0}) → Type 0
Settles Good Failed (ok u) = Good
Settles Good Failed (bad e) = Failed e

on_descriptor :
    {Good : Type 0} {Failed : ℕ → Type 0} (rest : Outcome (Unit {0})) (s : ℕ)
    → Settles Good Failed rest
    → Owned Good Failed (ok s) (finished (some s) [] (then_descriptor rest s))
unfolding finished then_descriptor socket_close
on_descriptor (ok u) s h = returned s h
on_descriptor (bad e) s h = closed s e h

-- IPV6_V6ONLY is set where the socket is one of IPv6.
abbrev pub IsPrepared : ListenCalls → ℕ → Type 0
IsPrepared c domain = (domain ≡ af_inet) ⊎ ((domain ≡ af_inet6) × (c.v6only ≡ ok tt))

-- The socket listens at an address.
abbrev pub Listens : ListenCalls → ℕ → Sockaddr → Type 0
Listens c domain ss = IsPrepared c domain × (c.bind ss ≡ ok tt) × (c.listen ≡ ok tt)

-- A call on the socket fails with an errno, and those before it have succeeded.
abbrev pub ListenFails : ListenCalls → ℕ → Sockaddr → ℕ → Type 0
ListenFails c domain ss e =
    ((domain ≡ af_inet6) × (c.v6only ≡ bad e))
    ⊎ (IsPrepared c domain × (c.bind ss ≡ bad e))
    ⊎ (IsPrepared c domain × (c.bind ss ≡ ok tt) × (c.listen ≡ bad e))

bound_lem :
    (c : ListenCalls) (domain : ℕ) (ss : Sockaddr) (o o' : Outcome (Unit {0}))
    → c.bind ss ≡ o
    → c.listen ≡ o'
    → IsPrepared c domain
    → Settles (Listens c domain ss) (ListenFails c domain ss) (and_then o o')
unfolding and_then
bound_lem c domain ss (bad e) o' h k p = inr (inl (p, h))
bound_lem c domain ss (ok u) (bad e) h k p = inr (inr (p, h, k))
bound_lem c domain ss (ok u) (ok w) h k p = (p, h, k)

v6_lem :
    (c : ListenCalls) (ss : Sockaddr) (o : Outcome (Unit {0}))
    → c.v6only ≡ o
    → Settles
        (Listens c af_inet6 ss)
        (ListenFails c af_inet6 ss)
        (and_then o (and_then (c.bind ss) c.listen))
unfolding and_then
v6_lem c ss (bad e) h = inl (refl, h)
v6_lem c ss (ok u) h = bound_lem c af_inet6 ss (c.bind ss) c.listen refl refl (inr (refl, h))

listen_with_lem :
    (c : ListenCalls) (domain : ℕ) (ss : Sockaddr) (o : Outcome ℕ)
    → Settles (Listens c domain ss) (ListenFails c domain ss) (listen_on c domain ss)
    → Owned (Listens c domain ss) (ListenFails c domain ss) o (listen_with c domain ss o)
unfolding listen_with finished socket_close
listen_with_lem c domain ss (bad e) h = no_descriptor e
listen_with_lem c domain ss (ok s) h = on_descriptor (listen_on c domain ss) s h

pub socket_listen-Owned :
    (garbage : Option ℕ) (c : ListenCalls) (domain port : ℕ)
    → (domain ≡ af_inet) ⊎ (domain ≡ af_inet6)
    → let ss : Sockaddr = record { family = domain; port = port } in
      Owned
        (Listens c domain ss)
        (ListenFails c domain ss)
        c.socket
        (socket_listen garbage c domain port)
unfolding socket_listen pf2af sockaddr_init listen_on
socket_listen-Owned garbage c domain port (inl h) =
    let ss : Sockaddr = record { family = af_inet; port = port } in
    rw h (
      listen_with_lem c af_inet ss c.socket
        (bound_lem c af_inet ss (c.bind ss) c.listen refl refl (inl refl)))
socket_listen-Owned garbage c domain port (inr h) =
    let ss : Sockaddr = record { family = af_inet6; port = port } in
    rw h (listen_with_lem c af_inet6 ss c.socket (v6_lem c ss c.v6only refl))

unsupported :
    (domain port : ℕ)
    → domain ≢ af_inet
    → domain ≢ af_inet6
    → sockaddr_init (pf2af domain) port ≡ bad epfnosupport
unfolding pf2af sockaddr_init
unsupported domain port h k = ground arith

-- For a domain that is not supported, kcn_socket_listen fails with EPFNOSUPPORT and gives close() what the
-- variable of the descriptor held before it was set, where that is not negative.
pub socket_listen_unset :
    (garbage : ℕ) (c : ListenCalls) (domain port : ℕ)
    → domain ≢ af_inet
    → domain ≢ af_inet6
    → (socket_listen (some garbage) c domain port ≡ (bad epfnosupport, garbage ∷ []))
      × (socket_listen none c domain port ≡ (bad epfnosupport, []))
unfolding socket_listen finished socket_close
socket_listen_unset garbage c domain port h k =
    let e = unsupported domain port h k in (rw (socket_listen, e) refl, rw (socket_listen, e) refl)

-- Setting the flag of a descriptor that does not block sets this bit, and leaves the bits below and above.
pub with_nonblock_lem :
    (flags : ℕ)
    → (with_nonblock flags / nonblock_bit % 2 ≡ 1)
      × (with_nonblock flags % nonblock_bit ≡ flags % nonblock_bit)
      × (with_nonblock flags / 2 ^ 12 ≡ flags / 2 ^ 12)
unfolding with_nonblock
with_nonblock_lem flags = elim (Bool-cases (flags / nonblock_bit % 2 == 1)) [
  | inl e ↦ rw e (ground arith, refl, refl)
  | inr e ↦
      let z : flags / 2 ^ 11 % 2 ≡ 0 = ground arith in
      rw e (omega (arith, z), omega (arith, z), omega (arith, z))
]

-- The flags with O_NONBLOCK and otherwise as they are.
abbrev pub IsNonblock : ℕ → ℕ → Type 0
IsNonblock flags flags' =
    (flags' / nonblock_bit % 2 ≡ 1)
    × (flags' % nonblock_bit ≡ flags % nonblock_bit)
    × (flags' / 2 ^ 12 ≡ flags / 2 ^ 12)

-- The descriptor has got the flag.
abbrev pub Unblocked : Outcome ℕ → (ℕ → Outcome (Unit {0})) → Type 0
Unblocked getfl setfl =
    (flags flags' : ℕ) × (getfl ≡ ok flags) × IsNonblock flags flags' × (setfl flags' ≡ ok tt)

-- One of the two calls of fcntl() fails with an errno.
abbrev pub UnblockFails : Outcome ℕ → (ℕ → Outcome (Unit {0})) → ℕ → Type 0
UnblockFails getfl setfl e =
    (getfl ≡ bad e)
    ⊎ ((flags flags' : ℕ) × (getfl ≡ ok flags) × IsNonblock flags flags' × (setfl flags' ≡ bad e))

set_lem :
    (getfl : Outcome ℕ) (setfl : ℕ → Outcome (Unit {0})) (flags flags' : ℕ) (o : Outcome (Unit {0}))
    → getfl ≡ ok flags
    → IsNonblock flags flags'
    → setfl flags' ≡ o
    → Settles (Unblocked getfl setfl) (UnblockFails getfl setfl) o
set_lem getfl setfl flags flags' (ok u) g i h = (flags, flags', g, i, h)
set_lem getfl setfl flags flags' (bad e) g i h = inr (flags, flags', g, i, h)

nonblock_lem :
    (getfl o : Outcome ℕ) (setfl : ℕ → Outcome (Unit {0}))
    → getfl ≡ o
    → Settles (Unblocked getfl setfl) (UnblockFails getfl setfl) (socket_nonblock o setfl)
unfolding socket_nonblock
nonblock_lem getfl (bad e) setfl h = inl h
nonblock_lem getfl (ok flags) setfl h =
    set_lem getfl setfl flags (with_nonblock flags) (setfl (with_nonblock flags)) h
      (with_nonblock_lem flags) refl

-- The connection is there, or in progress.
abbrev pub Connects : ConnectCalls → Type 0
Connects c = Unblocked c.getfl c.setfl × ((c.connect ≡ ok tt) ⊎ (c.connect ≡ bad einprogress))

-- A call on the socket fails with an errno, and those before it have succeeded.
abbrev pub ConnectFails : ConnectCalls → ℕ → Type 0
ConnectFails c e =
    UnblockFails c.getfl c.setfl e
    ⊎ (Unblocked c.getfl c.setfl × (c.connect ≡ bad e) × (e ≢ einprogress))

connected_lem :
    (c : ConnectCalls) (o o' : Outcome (Unit {0}))
    → Settles (Unblocked c.getfl c.setfl) (UnblockFails c.getfl c.setfl) o
    → c.connect ≡ o'
    → Settles (Connects c) (ConnectFails c) (and_then o (connected o'))
unfolding and_then connected
connected_lem c (bad e) o' h k = inl h
connected_lem c (ok u) (ok w) h k = (h, inl k)
connected_lem c (ok u) (bad e) h k = elim (Bool-cases (e == einprogress)) [
  | inl z ↦ let y : e ≡ einprogress = ground arith in rw z (h, inr (k ∙ ap bad y))
  | inr z ↦ rw z (inr (h, k, λ y. ground arith))
]

connect_with_lem :
    (c : ConnectCalls) (o : Outcome ℕ) → Owned (Connects c) (ConnectFails c) o (connect_with c o)
unfolding connect_with finished socket_close
connect_with_lem c (bad e) = no_descriptor e
connect_with_lem c (ok s) =
    on_descriptor (and_then (socket_nonblock c.getfl c.setfl) (connected c.connect)) s (
      connected_lem c (socket_nonblock c.getfl c.setfl) c.connect
        (nonblock_lem c.getfl c.getfl c.setfl refl) refl)

accept_with_lem :
    (getfl : Outcome ℕ) (setfl : ℕ → Outcome (Unit {0})) (o : Outcome ℕ)
    → Owned (Unblocked getfl setfl) (UnblockFails getfl setfl) o (accept_with getfl setfl o)
unfolding accept_with finished socket_close
accept_with_lem getfl setfl (bad e) = no_descriptor e
accept_with_lem getfl setfl (ok s) =
    on_descriptor (socket_nonblock getfl setfl) s (nonblock_lem getfl getfl setfl refl)

-- accept() is called again while a signal interrupts it.
accept_loop_lem :
    (n : ℕ) (o : Outcome ℕ) (more : List (Outcome ℕ))
    → o ≢ bad eintr
    → accept_loop (replicate n (bad eintr) ++ (o ∷ more)) ≡ some o
unfolding accept_loop
accept_loop_lem zero (ok s) more h = refl
accept_loop_lem zero (bad e) more h = elim (Bool-cases (e == eintr)) [
  | inl z ↦ let y : e ≡ eintr = ground arith in absurd (h (ap bad y))
  | inr z ↦ rw (accept_loop, z) refl
]
accept_loop_lem (suc n) o more h = accept_loop_lem n o more h

named_lem : (name : List ℕ) (r : Outcome ℕ × List ℕ) → (named name r).0 ≡ r
unfolding named
named_lem name (bad e, l) = refl
named_lem name (ok s, l) = refl

-- The descriptors of sockets have one owner. A socket that kcn_socket_listen makes for IPv4 or IPv6, that
-- kcn_socket_connect makes for an address of one of these, or that kcn_socket_accept takes behind
-- any number of interruptions is returned open or closed, once; without a socket nothing is
-- closed. It is returned only where every call on it has succeeded: IPV6_V6ONLY, where it is one
-- of IPv6, then bind() to the address and listen(); or fcntl(), which gives its flags and then O_NONBLOCK
-- in addition to them, and for a connection connect(), which may also answer EINPROGRESS. It is closed
-- only where one of these fails behind the success of those before it, with the errno of that one.
pub socket-Owned :
    (garbage : Option ℕ) (l : ListenCalls) (c : ConnectCalls) (domain port n : ℕ)
    (peer : Outcome (List ℕ × List ℕ)) (size : ℕ) (o : Outcome ℕ) (more : List (Outcome ℕ))
    → (domain ≡ af_inet) ⊎ (domain ≡ af_inet6)
    → o ≢ bad eintr
    → let ss : Sockaddr = record { family = domain; port = port } in
      Owned
        (Listens l domain ss)
        (ListenFails l domain ss)
        l.socket
        (socket_listen garbage l domain port)
      × Owned (Connects c) (ConnectFails c) c.socket (socket_connect c ss)
      × ((r : Outcome ℕ × List ℕ) × (name : Option (List ℕ)) × (socket_accept
              (replicate n (bad eintr) ++ (o ∷ more))
              c.getfl
              c.setfl
              peer
              size
            ≡ some (r, name))
          × Owned (Unblocked c.getfl c.setfl) (UnblockFails c.getfl c.setfl) o r)
unfolding socket_connect socket_accept af2pf
socket-Owned garbage l c domain port n peer size o more h k = (
  socket_listen-Owned garbage l domain port h,
  elim h [
    | inl e ↦ rw e (connect_with_lem c c.socket)
    | inr e ↦ rw e (connect_with_lem c c.socket)
  ],
  (
    accept_with c.getfl c.setfl o,
    (named (sockaddr_ntoa peer size).1 (accept_with c.getfl c.setfl o)).1,
    rw (socket_accept, accept_loop_lem n o more k)
        (ap (λ r. some (r, (named (sockaddr_ntoa peer size).1 (accept_with c.getfl c.setfl o)).1))
          (named_lem (sockaddr_ntoa peer size).1 (accept_with c.getfl c.setfl o))),
    accept_with_lem c.getfl c.setfl o,
  ),
)
