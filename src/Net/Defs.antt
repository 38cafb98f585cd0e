-- ===== src/Net/Defs.antt =====
-- The definitions of lib/kcn_net.c: a connection with its events, its buffers and its queue. What the
-- event library, malloc() and the system calls answer are lists in the state or arguments.
use kcn.Common.{
  ℕ, suc, List, [], ◌∷◌, Option, some, none, Bool, true, false, ◌&&◌, ◌==◌, if◌then◌else◌, Outcome,
  ok, bad, enomem,
}
use kcn.Common.Text.{strlcpy}
use kcn.Common.Fallible.{E, ◌>>◌, pure, modify, attempt}
use kcn.Buf.{Buf, BufData, data_new, init}
use kcn.Buf.Queue.{Queue, purge}

-- enum kcn_net_state, on Linux
pub data Phase : Type 0 where
  initial pending established disconnected : Phase

-- struct kcn_net. An event is pending in the event library or not; the descriptor was closed `closes`
-- times, and `wire` is what write() took from it. The answers to come are those of event_add(), 0
-- or an errno, and of malloc(); where a list ends the calls succeed.
pub record Net : Type 0 where
  pub state : Phase
  pub name : List ℕ
  pub reading : Bool
  pub writing : Bool
  pub closes : ℕ
  pub ibuf : Buf
  pub obuf : BufData
  pub obufq : Queue
  pub wire : List ℕ
  pub adds : List ℕ
  pub mallocs : List Bool

-- The events that a callback is told of.
pub record Events : Type 0 where
  pub read : Bool
  pub write : Bool
  pub timeout : Bool

-- event_add() behind its answers
unfoldable pub event_add : (Net → Net) → List ℕ → E Net (Unit {0})
event_add add [] n = some (ok tt, add n)
event_add add (e ∷ l) n =
    if e == 0
    then some (ok tt, add (record n { adds = l }))
    else some (bad e, record n { adds = l })

-- kcn_net_event_enable for one of the two events, where it is pending already or not
unfoldable pub event_enable : Bool → (Net → Net) → E Net (Unit {0})
unfolding event_add
event_enable true add n = some (ok tt, n)
event_enable false add n = event_add add n.adds n

unfoldable pub write_enable : E Net (Unit {0})
unfolding event_enable
write_enable n = event_enable n.writing (λ m. record m { writing = true }) n

-- kcn_net_read_enable in each state; the assertion fails on a connection that is down. Its change to
-- the state PENDING enables nothing.
unfoldable pub read_enable_in : Phase → E Net (Unit {0})
unfolding event_enable
read_enable_in disconnected n = none
read_enable_in established n = event_enable n.reading (λ m. record m { reading = true }) n
read_enable_in pending n = some (ok tt, n)
read_enable_in initial n = some (ok tt, record n { state = pending })

unfoldable pub read_enable : E Net (Unit {0})
unfolding read_enable_in
read_enable n = read_enable_in n.state n

-- kcn_net_state_change behind the assignment: a connection that was waited for starts to read. Where
-- the states are the same the code returns, and the assignment changes nothing.
unfoldable pub changed : Phase → Phase → E Net (Unit {0})
unfolding read_enable
changed pending established = attempt read_enable >> pure tt
changed old next = pure tt

unfoldable pub state_change : Phase → E Net (Unit {0})
unfolding changed
state_change next n = changed n.state next (record n { state = next })

-- kcn_net_disconnect in each state
unfoldable pub disconnect_in : Phase → E Net (Unit {0})
unfolding state_change
disconnect_in disconnected = pure tt
disconnect_in other = do
  modify (λ n. record n { reading = false; writing = false; closes = suc n.closes })
  state_change disconnected

unfoldable pub disconnect : E Net (Unit {0})
unfolding disconnect_in
disconnect n = disconnect_in n.state n

-- kcn_net_destroy of a connection: what is left of it is its descriptor.
unfoldable pub destroy : Net → Option Net
unfolding disconnect
destroy n = elim (disconnect n) [
  | none ↦ none
  | some (o, n') ↦ some (record n' { obufq = purge n'.obufq })
]

-- kcn_net_new where malloc() gives the structure, behind the blocks of its two buffers: the connection,
-- or how often its descriptor was closed. The two flags are what event_base_set() answers.
unfoldable pub connection : List ℕ → List ℕ → List ℕ → List ℕ → List Bool → Net
connection name i o adds mallocs = record {
  state = initial;
  name = name;
  reading = false;
  writing = false;
  closes = 0;
  ibuf = init (data_new i);
  obuf = data_new o;
  obufq = [];
  wire = [];
  adds = adds;
  mallocs = mallocs;
}

unfoldable pub destroyed : ℕ → Net → Option (Outcome Net × ℕ)
unfolding destroy
destroyed errno n = elim (destroy n) [ none ↦ none | some n' ↦ some (bad errno, n'.closes) ]

unfoldable pub new_with : ℕ → Bool → Net → Option (Outcome Net × ℕ)
unfolding destroyed write_enable
new_with errno false n = destroyed errno n
new_with errno true n = elim (write_enable n) [
  | none ↦ none
  | some (o, n') ↦ elim o [ ok u ↦ some (ok n', n'.closes) | bad e ↦ destroyed errno n' ]
]

-- kcn_net_new; `errno` is what errno holds where it fails behind the structure, which the failing call of
-- malloc() or of the event library, or the close() of kcn_net_destroy, has left.
unfoldable pub new :
    ℕ
    → ℕ
    → Bool
    → Option (List ℕ)
    → Option (List ℕ)
    → Bool
    → Bool
    → List ℕ
    → List ℕ
    → List Bool
    → Option (Outcome Net × ℕ)
unfolding connection new_with
new errno size false i o r w name adds mallocs = some (bad enomem, 0)
new errno size true none o r w name adds mallocs =
    destroyed errno (connection (strlcpy name size) [] [] adds mallocs)
new errno size true (some i) none r w name adds mallocs =
    destroyed errno (connection (strlcpy name size) i [] adds mallocs)
new errno size true (some i) (some o) r w name adds mallocs =
    new_with errno (r && w) (connection (strlcpy name size) i o adds mallocs)
