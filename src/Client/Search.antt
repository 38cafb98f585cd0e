-- ===== src/Client/Search.antt =====
-- kcn_client_init and kcn_client_search (lib/kcn_client.c): a search from its connection to its end. What
-- the resolver, the socket and the event library answer, and what the event loop makes of the
-- connection, are arguments.
use kcn.Common.{
  ℕ, ◌≤◌, ◌≡◌, refl, List, Option, some, none, Bool, ◌==◌, if◌then◌else◌, Outcome, ok, bad, arith,
}
use kcn.Common.Fallible.{E, ◌>>=◌, ◌>>◌}
use kcn.Buf.{init, kbd}
use kcn.Info.{Info}
use kcn.Msg.{Query}
use kcn.Msg.Bodies.{query_encode_lem}
use kcn.Net.{Net, with_obuf, net_write, read_enable, destroy}
use kcn.Net.Sound.{IsSound, IsUp}
use kcn.Net.States.{read_enable_lem}
use kcn.Net.Steps.{net_write_lem}
use kcn.Net.Creation.{destroy_lem}
use kcn.Client.Defs.{Receiver, query_send}

-- kcn_client_init, over what kcn_net_new answers on the socket
unfoldable pub client_init :
    Outcome (Unit {0}) → Outcome (Unit {0}) → Option (Outcome Net × ℕ) → Option (Outcome Net × ℕ)
client_init (bad e) connected made = some (bad e, 0)
client_init (ok u) (bad e) made = some (bad e, 0)
client_init (ok u) (ok v) made = made

-- The end of kcn_client_search: its outcome, the search and how often the descriptor was closed.
unfoldable pub finish_with :
    Outcome (Unit {0}) → Net → Info → Option (Outcome (Unit {0}) × (Info × ℕ))
finish_with o c ki = elim (destroy c) [ none ↦ none | some c' ↦ some (o, (ki, c'.closes)) ]

unfoldable pub search_result : Outcome (Unit {0}) → ℕ → Outcome (Unit {0})
search_result (bad e) error = bad e
search_result (ok u) error = if error == 0 then ok tt else bad error

unfoldable pub query_sent :
    E (Net × Receiver) (Unit {0})
    → List Bool
    → Info
    → Outcome (Unit {0})
    → Net
    → Option (Outcome (Unit {0}) × (Info × ℕ))
unfolding finish_with search_result
query_sent loop memory ki (bad e) c = finish_with (bad e) c ki
query_sent loop memory ki (ok u) c =
    elim (loop (c, record { error = 0; info = ki; errno = 0; memory = memory })) [
      | none ↦ none
      | some (o, p) ↦ finish_with (search_result o p.1.error) p.0 p.1.info
    ]

-- kcn_client_search behind kcn_client_init
unfoldable pub search_on :
    E (Net × Receiver) (Unit {0})
    → List Bool
    → Query
    → Info
    → Outcome Net
    → ℕ
    → Option (Outcome (Unit {0}) × (Info × ℕ))
unfolding query_sent
search_on loop memory q ki (bad e) n = some (bad e, (ki, n))
search_on loop memory q ki (ok c) n = elim (query_send q c) [
  | none ↦ none
  | some (o, c') ↦ query_sent loop memory ki o c'
]

-- kcn_client_search
unfoldable pub client_search :
    Outcome (Unit {0})
    → Option (Outcome Net × ℕ)
    → E (Net × Receiver) (Unit {0})
    → List Bool
    → Query
    → Info
    → Option (Outcome (Unit {0}) × (Info × ℕ))
unfolding search_on
client_search (bad e) made loop memory q ki = some (bad e, (ki, 0))
client_search (ok u) made loop memory q ki = elim made [
  | none ↦ none
  | some (o, n) ↦ search_on loop memory q ki o n
]

-- What is asked of the event loop: it ends and leaves a sound connection sound, as the steps of a
-- connection do.
pub record IsLoop (loop : E (Net × Receiver) (Unit {0})) : Type 0 where
  pub ends :
      (p : Net × Receiver)
      → IsSound p.0
      → (o : Outcome (Unit {0})) × (p' : Net × Receiver) × (loop p ≡ some (o, p')) × IsSound p'.0

finished :
    (o : Outcome (Unit {0})) (ki : Info) {c : Net}
    → IsSound c
    → finish_with o c ki ≡ some (o, (ki, 1))
unfolding finish_with
finished o ki s = let (c', e, n) = destroy_lem s in rw (finish_with, e, n) refl

and_read :
    (o : Outcome (Unit {0})) (m : E Net (Unit {0})) (c : Net) {c2 : Net}
    → m c ≡ some (o, c2)
    → IsSound c2
    → IsUp c2.state
    → (o' : Outcome (Unit {0})) × (c' : Net) × ((m >> read_enable) c ≡ some (o', c')) × IsSound c'
and_read (bad x) m c {c2} e s u = (bad x, c2, rw (◌>>◌, e) refl, s)
and_read (ok tt) m c {c2} e s u =
    let (c', o', f, (t, _, _, _)) = read_enable_lem s u in (o', c', rw (◌>>◌, e) f, t)

-- Sending a query on a sound connection that is up returns and leaves it sound.
query_send_lem :
    (q : Query) {c : Net}
    → IsSound c
    → IsUp c.state
    → 32 ≤ c.obuf.size
    → (o : Outcome (Unit {0})) × (c' : Net) × (query_send q c ≡ some (o, c')) × IsSound c'
unfolding query_send with_obuf kbd init
query_send_lem q {c} s u h =
    let (b, e, v, _, _) = query_encode_lem q {b = init c.obuf} s.obuf h in
    let c1 : Net = record c { obuf = kbd b } in
    let s1 : IsSound c1 = record {
      suits = s.suits;
      ibuf = s.ibuf;
      obuf = omega arith;
      queue = s.queue;
    } in
    let (c2, o, f, (s2, u2, _, _)) = net_write_lem b {n = c1} s1 u v in
    let (o', c', g, s') = and_read o (net_write b) c1 f s2 u2 in
    (o', c', rw (query_send, ◌>>=◌, with_obuf, e) g, s')

query_sent_lem :
    (loop : E (Net × Receiver) (Unit {0})) (memory : List Bool) (ki : Info) (o : Outcome (Unit {0}))
    {c : Net}
    → IsLoop loop
    → IsSound c
    → (o' : Outcome (Unit {0})) × (ki' : Info) × (query_sent loop memory ki o c
        ≡ some (o', (ki', 1)))
unfolding query_sent
query_sent_lem loop memory ki (bad e) l s = (bad e, ki, finished (bad e) ki s)
query_sent_lem loop memory ki (ok tt) {c} l s =
    let r : Receiver = record { error = 0; info = ki; errno = 0; memory = memory } in
    let (o, p, e, t) = l.ends (c, r) s in
    (
      search_result o p.1.error,
      p.1.info,
      rw (query_sent, e) (finished (search_result o p.1.error) p.1.info t),
    )

-- kcn_client_search where kcn_net_new gives a sound connection that is up, with a block for a query, and
-- with an event loop that ends and leaves a sound connection sound: it returns, whatever malloc() and
-- the event library answer, and has closed the descriptor once.
pub client_search_lem :
    (loop : E (Net × Receiver) (Unit {0})) (memory : List Bool) (q : Query) (ki : Info) {c : Net}
    → IsLoop loop
    → IsSound c
    → IsUp c.state
    → 32 ≤ c.obuf.size
    → (o : Outcome (Unit {0})) × (ki' : Info) × (client_search
          (ok tt)
          (client_init (ok tt) (ok tt) (some (ok c, 0)))
          loop
          memory
          q
          ki
        ≡ some (o, (ki', 1)))
unfolding client_search client_init search_on
client_search_lem loop memory q ki {c} l s u h =
    let (o, c', e, t) = query_send_lem q s u h in
    let (o', ki', f) = query_sent_lem loop memory ki o l t in (o', ki', rw (search_on, e) f)
