-- ===== src/Client/Tests.antt =====
-- Runs of lib/kcn_client.c on the responses of a server, and the theorems at concrete inputs.
use kcn.Common.{◌≡◌, refl, List, [], ◌∷◌, some, true, false, arith, ok, IsByte}
use kcn.Buf.{Buf}
use kcn.Buf.View.{IsValid, ahead}
use kcn.Info.{Info, nlocs}
use kcn.Buf.{len}
use kcn.Buf.Queue.{enqueue, data_dup}
use kcn.Net.{
  Net, connection, net_write, net_write_in, enqueued, block_for, write_enable, event_enable,
  event_add, disconnected, disconnect, disconnect_in, state_change, changed,
}
use kcn.Net.Life.{here, next, send, close}
use kcn.Client.Life.{Reach-client_read}
use kcn.Client.Defs.{client_read}
use kcn.Common.{Outcome, replicate}
use kcn.Common.Fallible.{E}
use kcn.Buf.{data_new, init}
use kcn.Msg.{Query}
use kcn.Net.Sound.{IsSound}
use kcn.Client.Defs.{Receiver}
use kcn.Client.Search.{client_init, client_search, IsLoop, client_search_lem}
use kcn.Client.Exchange.{Reply, receiver, with_found, client_read-replies}

abbrev two_replies : List Reply
two_replies = record { score = 3; loc = 97 ∷ 98 ∷ [] } ∷ record { score = 0; loc = 99 ∷ [] } ∷ []

abbrev search_info : Info
search_info = record {
  loctype = 1;
  maxnlocs = 2;
  dbname = [];
  country = [];
  userip = [];
  time = 0;
  locs = [];
}

-- What the server sends: two locators, the last message, and the first byte of another message.
abbrev arrived : Buf
arrived = record {
  size = 22;
  sp = 0;
  ep = 22;
  bytes =
      1 ∷ 2 ∷ 0 ∷ 4 ∷ 0 ∷ 3 ∷ 97 ∷ 98 ∷ 1 ∷ 2 ∷ 0 ∷ 3 ∷ 0 ∷ 0 ∷ 99 ∷ 1 ∷ 2 ∷ 0 ∷ 2 ∷ 3 ∷ 0 ∷ 1 ∷ [];
  cp = 0;
}

abbrev reading : Net
reading = record (connection [] [] [] [] []) { ibuf = arrived }

esrch-IsByte : IsByte 3
esrch-IsByte = omega arith

enough_room : nlocs search_info ≡ 0
unfolding nlocs
enough_room = refl

client_read-replies_example :
    (b : Buf) × (client_read 3 (reading, receiver 0 0 search_info)
      ≡ some
          (ok 3, (record reading { ibuf = b }, receiver 3 3 (with_found search_info two_replies))))
    × IsValid b
    × (ahead b ≡ 1 ∷ [])
client_read-replies_example =
    client_read-replies two_replies 3 0 0 3 search_info (1 ∷ []) reading
      (omega arith, omega arith, (omega arith, omega arith, tt)) (omega arith)
      (omega (arith, enough_room)) esrch-IsByte (omega arith) (omega arith) refl refl

-- An event loop that has nothing to do.
abbrev idle : E (Net × Receiver) (Unit {0})
idle p = some (ok tt, p)

idle-IsLoop : IsLoop idle
idle-IsLoop = record { ends = λ p s. (ok tt, p, refl, s) }

abbrev fresh : Net
fresh = connection [] [] (replicate 32 0) [] []

fresh-IsSound : IsSound fresh
unfolding connection init data_new
fresh-IsSound = record { suits = (refl, refl); ibuf = omega arith; obuf = omega arith; queue = tt }

abbrev asked : Query
asked = record {
  loctype = 1;
  maxcount = 2;
  eq = record { type = 2; op = 1; val = 40; start = 0; end = 9 };
}

client_search_lem_example :
    (o : Outcome (Unit {0})) × (ki' : Info) × (client_search
        (ok tt)
        (client_init (ok tt) (ok tt) (some (ok fresh, 0)))
        idle
        []
        asked
        search_info
      ≡ some (o, (ki', 1)))
unfolding connection data_new
client_search_lem_example =
    client_search_lem idle [] asked search_info idle-IsLoop fresh-IsSound tt (omega arith)

abbrev two_bytes : Buf
two_bytes = record { size = 4; sp = 1; ep = 3; bytes = 9 ∷ 5 ∷ 6 ∷ 9 ∷ []; cp = 1 }

abbrev sent_net : Net
sent_net = record fresh {
  writing = true;
  obufq = record { size = 2; sp = 0; ep = 2; bytes = 5 ∷ 6 ∷ [] } ∷ [];
}

sent_run : net_write two_bytes fresh ≡ some (ok tt, sent_net)
unfolding connection net_write net_write_in enqueued block_for write_enable event_enable event_add
    enqueue data_dup len
sent_run = refl

-- A buffer is sent, and the search is given up.
abbrev down : Net
down = record sent_net { state = disconnected; reading = false; writing = false; closes = 1 }

down_run : disconnect sent_net ≡ some (ok tt, down)
unfolding connection disconnect disconnect_in state_change changed
down_run = refl

Reach-client_read_example : IsSound down
Reach-client_read_example =
    Reach-client_read 3 {p = (fresh, receiver 0 0 search_info)}
      {q = (down, receiver 0 0 search_info)} fresh-IsSound
      (next (next here (send two_bytes (ok tt) (omega arith) sent_run)) (close (ok tt) down_run))
