-- ===== src/Server/Threads.antt =====
-- The threads of kcndbd/kcndb_server.c and the socket on which they listen. What the system answers is an
-- argument; the descriptors that are closed are noted, the last one first.
use kcn.Common.{
  ℕ, suc, ◌+◌, ◌*◌, ◌/◌, ◌%◌, ◌^◌, List, [], ◌∷◌, ◌++◌, Option, some, none, Bool, true, false, leb,
  if◌then◌else◌, Outcome, ok, bad,
}
use kcn.Sockets.{ListenCalls, socket_listen, socket_close, af_inet6}

-- enum kcndb_thread_status
pub data ThreadStatus : Type 0 where
  dead : ThreadStatus
  running : ThreadStatus

-- struct kcndb_thread, with whether its event base and its database are there
pub record Worker : Type 0 where
  pub status : ThreadStatus
  pub number : ℕ
  pub listenfd : Option ℕ
  pub evb : Bool
  pub db : Bool

-- The variables of the file: kcndb_server_socket, kcndb_server_port in network order, and the threads.
pub record Daemon : Type 0 where
  pub socket : Option ℕ
  pub port : ℕ
  pub main_thread : Worker
  pub workers : List Worker
  pub closed : List ℕ

-- KCN_HTONS of lib/kcn.h on a little-endian machine, which is htons() there
unfoldable pub htons : ℕ → ℕ
htons v = v % 2 ^ 8 * 2 ^ 8 + v / 2 ^ 8 % 2 ^ 8

-- KCN_NETSTAT_PORT_DEFAULT
abbrev pub port_default : ℕ
port_default = 9410

abbrev pub port_min : ℕ
port_min = 1

-- kcndb_thread_init
unfoldable pub thread_init : Option ℕ → ℕ → Worker → Worker
thread_init socket n kt = record kt { number = n; listenfd = socket; evb = false }

-- kcndb_thread_finish: the event base and the database are freed.
unfoldable pub thread_finish : Worker → Worker
thread_finish kt = record kt { evb = false; db = false }

-- kcndb_server_port_set; `none` is the failed assertion.
unfoldable pub port_set : ℕ → Daemon → Option Daemon
unfolding htons
port_set port d = if leb port_min port then some (record d { port = htons port }) else none

-- kcndb_server_stop
unfoldable pub server_stop : Daemon → Daemon
server_stop d = record d { socket = none; closed = socket_close d.socket d.closed }

-- The loop of kcndb_server_start from thread `n` on: whether pthread_create() gave them all.
unfoldable pub start_workers :
    (ℕ → Outcome (Unit {0})) → Option ℕ → ℕ → List Worker → Bool × List Worker
unfolding thread_init
start_workers create socket n [] = (true, [])
start_workers create socket n (kt ∷ kts) =
    let kt' = thread_init socket n kt in
    let rest = start_workers create socket (suc n) kts in
    elim (create n) [
      | bad e ↦ (false, kt' ∷ kts)
      | ok u ↦ (rest.0, record kt' { status = running } ∷ rest.1)
    ]

unfoldable pub started : Bool × List Worker → Daemon → Bool × Daemon
unfolding server_stop
started (b, kts) d =
    if b
    then (true, record d { workers = kts })
    else (false, server_stop (record d { workers = kts }))

unfoldable pub start_on : (ℕ → Outcome (Unit {0})) → Daemon → Outcome ℕ × List ℕ → Bool × Daemon
unfolding started start_workers
start_on create d (bad e, l) = (false, server_stop (record d { closed = l ++ d.closed }))
start_on create d (ok s, l) =
    started (start_workers create (some s) 1 d.workers)
      (record d { socket = some s; closed = l ++ d.closed })

unfoldable pub start_at :
    Option ℕ → Option ℕ → ListenCalls → (ℕ → Outcome (Unit {0})) → Daemon → Option (Bool × Daemon)
unfolding start_on
start_at (some s) garbage calls create d = none
start_at none garbage calls create d =
    some (start_on create d (socket_listen garbage calls af_inet6 d.port))

-- kcndb_server_start; `none` is the failed assertion that there is no socket.
unfoldable pub server_start :
    Option ℕ → ListenCalls → (ℕ → Outcome (Unit {0})) → Daemon → Option (Bool × Daemon)
unfolding start_at
server_start garbage calls create d = start_at d.socket garbage calls create d

-- The rounds of kcndb_server_main on what accept() answers, one after the other: what each session made of
-- its descriptor.
unfoldable pub serve : {A : Type 0} → (ℕ → A) → List (Outcome ℕ) → List A
serve session [] = []
serve session (bad e ∷ l) = serve session l
serve session (ok fd ∷ l) = session fd ∷ serve session l

-- kcndb_server_main up to some call of accept() that waits: it serves, unless there is no event base or no
-- database.
unfoldable pub server_main :
    {A : Type 0} → Bool → Bool → (ℕ → A) → List (Outcome ℕ) → Worker → List A × Worker
unfolding serve thread_finish
server_main evb db session answers kt =
    let kt' = record kt { evb = evb; db = db } in
    if evb
    then (if db then (serve session answers, kt') else ([], thread_finish kt'))
    else ([], thread_finish kt')

-- kcndb_server_loop: the main thread serves as the others do.
unfoldable pub server_loop :
    {A : Type 0} → Bool → Bool → (ℕ → A) → List (Outcome ℕ) → Daemon → List A × Daemon
unfolding server_main thread_init
server_loop evb db session answers d =
    let kt = record (thread_init d.socket 0 d.main_thread) { status = running } in
    let r = server_main evb db session answers kt in (r.0, record d { main_thread = r.1 })
