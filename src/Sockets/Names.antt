-- ===== src/Sockets/Names.antt =====
-- The names of peers (lib/kcn_sockaddr.c).
use kcn.Common.{
  ℕ, ◌+◌, ◌-◌, ◌≤◌, ◌<◌, ◌≡◌, ap, List, ◌++◌, length, take, arith, ok, lt→ltb, take-all,
  length-append, length-take,
}
use kcn.Common.Text.{codes}
use kcn.Sockets.Defs.{sockaddr_ntoa, strlcat, socknamelen}

-- The name that kcn_sockaddr_ntoa makes of a host and a service that getnameinfo() gives, where the host
-- fits the array, is shorter than the array; and in an array of KCN_SOCKNAMELEN bytes a host of up to 45
-- characters, as INET6_ADDRSTRLEN has them, and a port of up to five digits stand whole, with a
-- slash between them.
pub sockaddr_ntoa_lem :
    (host service : List ℕ) (size : ℕ)
    → length host < size
    → length host ≤ 45
    → length service ≤ 5
    → (length (sockaddr_ntoa (ok (host, service)) size).1 < size)
      × ((sockaddr_ntoa (ok (host, service)) socknamelen).1 ≡ host ++ (codes "/" ++ service))
unfolding sockaddr_ntoa strlcat
sockaddr_ntoa_lem host service size h k l =
    let t = codes "/" ++ service in
    let n : length t ≡ length service + 1 = omega arith in
    (
      rw (lt→ltb _ _ h) (
          omega (
            arith,
            length-append host (take (size - length host - 1) t),
            length-take (size - length host - 1) t,
          )),
      rw (lt→ltb (length host) socknamelen (omega arith))
          (ap (λ r. host ++ r) (take-all (socknamelen - length host - 1) t (omega (arith, n)))),
    )
