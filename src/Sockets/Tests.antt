-- ===== src/Sockets/Tests.antt =====
-- The theorems on lib/kcn_socket.c and lib/kcn_sockaddr.c at concrete inputs.
use kcn.Common.{
  ℕ, ◌≡◌, refl, List, [], ◌∷◌, ◌++◌, replicate, Option, some, none, Outcome, ok, bad, inr, eintr,
  einprogress,
}
use kcn.Sockets.Defs.{
  Sockaddr, ListenCalls, ConnectCalls, socket_listen, socket_connect, socket_accept,
}
use kcn.Sockets.Owner.{
  Owned, Listens, ListenFails, Connects, ConnectFails, Unblocked, UnblockFails, socket-Owned,
}

-- The address is in use.
abbrev busy : ListenCalls
busy = record { socket = ok 5; v6only = ok tt; bind = λ ss. bad 98; listen = ok tt }

abbrev waiting : ConnectCalls
waiting = record { socket = ok 6; getfl = ok 2; setfl = λ f. ok tt; connect = bad einprogress }

abbrev ss : Sockaddr
ss = record { family = 10; port = 80 }

socket-Owned_example :
    Owned (Listens busy 10 ss) (ListenFails busy 10 ss) (ok 5) (socket_listen none busy 10 80)
    × Owned (Connects waiting) (ConnectFails waiting) (ok 6) (socket_connect waiting ss)
    × ((r : Outcome ℕ × List ℕ) × (name : Option (List ℕ)) × (socket_accept
            (replicate 2 (bad eintr) ++ (ok 7 ∷ []))
            (ok 2)
            (λ f. ok tt)
            (bad 1)
            52
          ≡ some (r, name))
        × Owned (Unblocked (ok 2) (λ f. ok tt)) (UnblockFails (ok 2) (λ f. ok tt)) (ok 7) r)
socket-Owned_example =
    socket-Owned none busy waiting 10 80 2 (bad 1) 52 (ok 7) [] (inr refl) (λ e. cc)
