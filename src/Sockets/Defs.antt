-- ===== src/Sockets/Defs.antt =====
-- The definitions of lib/kcn_socket.c and lib/kcn_sockaddr.c, with HAVE_IPV6. What the system answers to each
-- call is an argument. A descriptor is a number, or none where the variable is negative; the
-- descriptors that are given to close() are noted, the last one first. Logging is left out.
use kcn.Common.{
  ℕ, ◌+◌, ◌-◌, ◌/◌, ◌%◌, ◌^◌, List, [], ◌∷◌, ◌++◌, length, take, Option, some, none, Bool, true,
  false, ltb, ◌==◌, if◌then◌else◌, Outcome, ok, bad, eagain, einval, eintr, eafnosupport,
  epfnosupport, einprogress,
}
use kcn.Common.Text.{codes}

-- AF_INET and AF_INET6, which are PF_INET and PF_INET6
abbrev pub af_inet : ℕ
af_inet = 2

abbrev pub af_inet6 : ℕ
af_inet6 = 10

-- kcn_sockaddr_pf2af; a failure is -1, which is converted to a sa_family_t, of 16 bits.
unfoldable pub pf2af : ℕ → ℕ
pf2af domain =
    if domain == af_inet then af_inet else if domain == af_inet6 then af_inet6 else 2 ^ 16 - 1

unfoldable pub af2pf : ℕ → Outcome ℕ
af2pf af =
    if af == af_inet then ok af_inet else if af == af_inet6 then ok af_inet6 else bad eafnosupport

-- struct sockaddr_storage, as far as the source sets it, with its length; the address is zero.
pub record Sockaddr : Type 0 where
  pub family : ℕ
  pub port : ℕ

-- kcn_sockaddr_len: the sizes of struct sockaddr_in and struct sockaddr_in6
unfoldable pub sockaddr_len : ℕ → Outcome ℕ
sockaddr_len family =
    if family == af_inet then ok 16 else if family == af_inet6 then ok 28 else bad eafnosupport

-- kcn_sockaddr_init: the address and its length
unfoldable pub sockaddr_init : ℕ → ℕ → Outcome (Sockaddr × ℕ)
sockaddr_init family port =
    if family == af_inet
    then ok (record { family = af_inet; port = port }, 16)
    else if family == af_inet6
    then ok (record { family = af_inet6; port = port }, 28)
    else bad epfnosupport

-- What getaddrinfo() answers: the first address, or an error.
pub data Resolved : Type 0 where
  found : Sockaddr → Resolved
  eai_again : Resolved
  eai_system : ℕ → Resolved
  eai_other : Resolved

-- kcn_sockaddr_aton, behind getaddrinfo()
unfoldable pub sockaddr_aton : Resolved → Outcome Sockaddr
sockaddr_aton (found ss) = ok ss
sockaddr_aton eai_again = bad eagain
sockaddr_aton (eai_system e) = bad e
sockaddr_aton eai_other = bad einval

-- strlcat() into an array of `size` bytes
unfoldable pub strlcat : List ℕ → List ℕ → ℕ → List ℕ
strlcat s t size = if ltb (length s) size then s ++ take (size - length s - 1) t else s

-- kcn_sockaddr_ntoa, behind getnameinfo(), which gives a host and a service: the name, and what is left in
-- the array where there is none.
unfoldable pub sockaddr_ntoa : Outcome (List ℕ × List ℕ) → ℕ → Bool × List ℕ
unfolding strlcat
sockaddr_ntoa (ok (host, service)) namelen = (true, strlcat host (codes "/" ++ service) namelen)
sockaddr_ntoa (bad e) namelen = (false, [])

-- KCN_SOCKNAMELEN
abbrev pub socknamelen : ℕ
socknamelen = 52

-- kcn_socket_close
unfoldable pub socket_close : Option ℕ → List ℕ → List ℕ
socket_close none closed = closed
socket_close (some s) closed = s ∷ closed

-- O_NONBLOCK
abbrev pub nonblock_bit : ℕ
nonblock_bit = 2 ^ 11

unfoldable pub with_nonblock : ℕ → ℕ
with_nonblock flags = if flags / nonblock_bit % 2 == 1 then flags else flags + nonblock_bit

-- kcn_socket_nonblock, over the two calls of fcntl()
unfoldable pub socket_nonblock : Outcome ℕ → (ℕ → Outcome (Unit {0})) → Outcome (Unit {0})
unfolding with_nonblock
socket_nonblock (bad e) setfl = bad e
socket_nonblock (ok flags) setfl = setfl (with_nonblock flags)

-- The end of a function: the descriptor, or the error with the descriptor closed.
unfoldable pub finished : Option ℕ → List ℕ → Outcome ℕ → Outcome ℕ × List ℕ
unfolding socket_close
finished s closed (ok t) = (ok t, closed)
finished s closed (bad e) = (bad e, socket_close s closed)

-- What the system answers to the calls of kcn_socket_listen. Those of setsockopt() that only warn have no
-- effect on what is modelled.
pub record ListenCalls : Type 0 where
  pub socket : Outcome ℕ
  pub v6only : Outcome (Unit {0})
  pub bind : Sockaddr → Outcome (Unit {0})
  pub listen : Outcome (Unit {0})

unfoldable pub then_descriptor : Outcome (Unit {0}) → ℕ → Outcome ℕ
then_descriptor (bad e) s = bad e
then_descriptor (ok u) s = ok s

unfoldable pub and_then : Outcome (Unit {0}) → Outcome (Unit {0}) → Outcome (Unit {0})
and_then (bad e) more = bad e
and_then (ok u) more = more

-- The calls of kcn_socket_listen on its socket
unfoldable pub listen_on : ListenCalls → ℕ → Sockaddr → Outcome (Unit {0})
unfolding and_then
listen_on c domain ss =
    let rest = and_then (c.bind ss) c.listen in
    if domain == af_inet6 then and_then c.v6only rest else rest

unfoldable pub listen_with : ListenCalls → ℕ → Sockaddr → Outcome ℕ → Outcome ℕ × List ℕ
unfolding finished then_descriptor listen_on
listen_with c domain ss (bad e) = finished none [] (bad e)
listen_with c domain ss (ok s) = finished (some s) [] (then_descriptor (listen_on c domain ss) s)

-- kcn_socket_listen; `garbage` is what the variable of the descriptor holds before it is set.
unfoldable pub socket_listen : Option ℕ → ListenCalls → ℕ → ℕ → Outcome ℕ × List ℕ
unfolding pf2af sockaddr_init listen_with finished
socket_listen garbage c domain port = elim (sockaddr_init (pf2af domain) port) [
  | bad e ↦ finished garbage [] (bad e)
  | ok x ↦ listen_with c domain x.0 c.socket
]

-- What the system answers to the calls of kcn_socket_connect
pub record ConnectCalls : Type 0 where
  pub socket : Outcome ℕ
  pub getfl : Outcome ℕ
  pub setfl : ℕ → Outcome (Unit {0})
  pub connect : Outcome (Unit {0})

-- A connection that is in progress is no error.
unfoldable pub connected : Outcome (Unit {0}) → Outcome (Unit {0})
connected (ok u) = ok u
connected (bad e) = if e == einprogress then ok tt else bad e

unfoldable pub connect_with : ConnectCalls → Outcome ℕ → Outcome ℕ × List ℕ
unfolding finished then_descriptor socket_nonblock and_then connected
connect_with c (bad e) = finished none [] (bad e)
connect_with c (ok s) =
    finished (some s) []
      (then_descriptor (and_then (socket_nonblock c.getfl c.setfl) (connected c.connect)) s)

-- kcn_socket_connect; the length of an address whose family has a domain is known, as the source asserts.
unfoldable pub socket_connect : ConnectCalls → Sockaddr → Outcome ℕ × List ℕ
unfolding af2pf connect_with
socket_connect c ss = elim (af2pf ss.family) [
  | bad e ↦ (bad e, [])
  | ok domain ↦ connect_with c c.socket
]

-- The loop around accept(), on what it answers: `none` where the answers end, since the call waits then.
unfoldable pub accept_loop : List (Outcome ℕ) → Option (Outcome ℕ)
accept_loop [] = none
accept_loop (ok s ∷ l) = some (ok s)
accept_loop (bad e ∷ l) = let again = accept_loop l in if e == eintr then again else some (bad e)

unfoldable pub accept_with : Outcome ℕ → (ℕ → Outcome (Unit {0})) → Outcome ℕ → Outcome ℕ × List ℕ
unfolding finished then_descriptor socket_nonblock
accept_with getfl setfl (bad e) = finished none [] (bad e)
accept_with getfl setfl (ok s) =
    finished (some s) [] (then_descriptor (socket_nonblock getfl setfl) s)

unfoldable pub named : List ℕ → Outcome ℕ × List ℕ → (Outcome ℕ × List ℕ) × Option (List ℕ)
named name (bad e, closed) = ((bad e, closed), none)
named name (ok s, closed) = ((ok s, closed), some name)

-- kcn_socket_accept, where the name of the peer is wanted: the descriptor, those that were closed, and
-- the name, which a failure leaves as it was.
unfoldable pub socket_accept :
    List (Outcome ℕ)
    → Outcome ℕ
    → (ℕ → Outcome (Unit {0}))
    → Outcome (List ℕ × List ℕ)
    → ℕ
    → Option ((Outcome ℕ × List ℕ) × Option (List ℕ))
unfolding accept_loop accept_with sockaddr_ntoa named
socket_accept answers getfl setfl peer namelen = elim (accept_loop answers) [
  | none ↦ none
  | some o ↦ some (named (sockaddr_ntoa peer namelen).1 (accept_with getfl setfl o))
]
