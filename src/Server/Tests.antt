-- ===== src/Server/Tests.antt =====
-- Runs of kcndbd/kcndb_server.c, and the theorems at concrete inputs.
use kcn.Common.{
  Option, ◌⊎◌, bad, eagain, true, false, ℕ, ◌≡◌, refl, List, [], ◌∷◌, ◌++◌, some, length, replicate,
  length-replicate, arith, ok, sym, ap, ◌∙◌,
}
use kcn.Buf.{Buf, data_new, init}
use kcn.Buf.View.{IsValid, ahead}
use kcn.Buf.Fifo.{strings}
use kcn.Info.{Info, nlocs}
use kcn.Net.{Net, connection}
use kcn.Net.Waiting.{bytes_of}
use kcn.Net.Ready.{IsReady}
use kcn.Db.{Record, Table, wanted, op_match, table_lookup}
use kcn.Db.Selection.{IsTable, selected}
use kcn.Db.Lookup.{HasLocator}
use kcn.File.{opened}
use kcn.File.Fill.{IsSound}
use kcn.Eq.{type_cpuload, op_ge, time_match, time_lt}
use kcn.Msg.{loc_uri, Query, query_check}
use kcn.Msg.Bodies.{query_bytes}
use kcn.Msg.Fields.{InRange}
use kcn.Client.{client_read}
use kcn.Client.Exchange.{last_packet, receiver, with_found}
use kcn.Net.{new}
use kcn.Server.Session.{session, session_lem, IsLoop}
use kcn.Server.Defs.{Thread, server_recv}
use kcn.Server.Queries.{IsServing, errno_of}
use kcn.Server.Requests.{server_recv-query}
use kcn.Server.Responses.{message_size, reply_packets}
use kcn.Server.Answers.{all_replies, HasLocators, server_recv-client_read}

-- A record with time 5, value 42 and the locator at 0, whose bytes are "ab", as its table has it.
abbrev one : Table
one = record {
  locs = opened (replicate 16 0) (0 ∷ 2 ∷ 97 ∷ 98 ∷ replicate 8 0) [];
  table =
      opened (replicate 40 0) (replicate 7 0 ++ (5 ∷ (replicate 7 0 ++ (42 ∷ replicate 8 0)))) [];
  locsize = 12;
  tablesize = 24;
  readers = 0;
  writer = false;
}

abbrev measured : Record
measured = record { time = 5; val = 42; locidx = 0; loc = 97 ∷ 98 ∷ [] }

abbrev query : Query
query = record {
  loctype = loc_uri;
  maxcount = 5;
  eq = record { type = type_cpuload; op = op_ge; val = 40; start = 0; end = 9 };
}

query_known : wanted query.eq measured ≡ some true
unfolding wanted op_match time_match time_lt
query_known = refl

query_selects : selected query.eq 5 (measured ∷ []) ≡ measured ∷ []
query_selects = rw query_known refl

table_IsSound : IsSound one.table
unfolding opened init data_new
table_IsSound = record { valid = omega arith; errnos = tt {0} }

locs_IsSound : IsSound one.locs
unfolding opened init data_new
locs_IsSound = record { valid = omega arith; errnos = tt {0} }

one_locator : HasLocator one.locs.content one.locs.buf.size 0 (97 ∷ 98 ∷ [])
unfolding opened init data_new
one_locator = record {
  rest = replicate 8 0;
  at_offset = refl;
  in_half = omega arith;
  in_block = omega arith;
  in_range = omega arith;
}

one-IsTable : IsTable query.eq (measured ∷ []) one
unfolding opened init data_new
one-IsTable = record {
  table_quiet = (table_IsSound, refl);
  locs_quiet = (locs_IsSound, refl);
  room = omega arith;
  content = refl;
  stored = (
    record {
      time_u64 = omega arith;
      val_u64 = omega arith;
      locidx_u64 = omega arith;
      locator = one_locator;
      in_file = omega arith;
      known = λ h. let e = query_known in cc;
    },
    tt,
  );
  unlocked = refl;
}

-- The query in the buffer of a connection.
abbrev asked : Buf
asked = record { size = 32; sp = 0; ep = 32; bytes = 1 ∷ 1 ∷ 0 ∷ 28 ∷ query_bytes query; cp = 0 }

query-InRange : InRange query
query-InRange = omega arith

query_checked : query_check query ≡ ok query
unfolding query_check
query_checked = refl

-- A connection with a block for messages.
abbrev ready_with : List ℕ → Net
ready_with block = connection [] [] block [] []

ready_with-IsReady :
    (block : List ℕ) → length block ≡ message_size → IsReady message_size (ready_with block)
unfolding connection init data_new
ready_with-IsReady block h = record {
  is_sound = record { suits = (refl, refl); ibuf = omega arith; obuf = omega arith; queue = tt };
  is_up = tt;
  no_adds = refl;
  no_mallocs = refl;
  obuf_size = h;
}

-- A thread and its connection that asks.
abbrev asking : Net × Thread
asking = (
  record (ready_with (replicate 4096 0)) { ibuf = asked },
  record { db = one ∷ one ∷ []; clock = ok 7; fuel = 2 },
)

asking-IsReady : IsReady message_size asking.0
unfolding connection init data_new
asking-IsReady =
    let r = ready_with-IsReady (replicate 4096 0) (length-replicate {A = ℕ} 4096 0) in
    record {
      is_sound = record {
        suits = r.is_sound.suits;
        ibuf = omega arith;
        obuf = r.is_sound.obuf;
        queue = r.is_sound.queue;
      };
      is_up = tt;
      no_adds = refl;
      no_mallocs = refl;
      obuf_size = r.obuf_size;
    }

asking-IsServing : IsServing query (measured ∷ []) asking
unfolding table_lookup
asking-IsServing = record {
  ready = asking-IsReady;
  table = one;
  lookup = refl;
  holds = one-IsTable;
  fuel = omega arith;
  fits = rw query_selects (omega arith, tt);
}

server_recv-query_example :
    (p' : Net × Thread) × (server_recv 2 asking ≡ some (ok eagain, p'))
    × IsReady message_size p'.0
    × (strings p'.0.obufq
        ≡ strings asking.0.obufq
          ++ (reply_packets (selected query.eq 5 (measured ∷ []))
              ++ (last_packet (errno_of (selected query.eq 5 (measured ∷ []))) ∷ [])))
server_recv-query_example =
    server_recv-query query (measured ∷ []) 0 {p = asking} asking-IsServing query-InRange
      query_checked refl refl

abbrev answered : Net × Thread
answered =
    (server_recv-query query (measured ∷ []) 0 {p = asking} asking-IsServing query-InRange
      query_checked refl refl).0

abbrev arrived : Buf
arrived = record {
  size = 15;
  sp = 0;
  ep = 15;
  bytes = 1 ∷ 2 ∷ 0 ∷ 4 ∷ 0 ∷ 0 ∷ 97 ∷ 98 ∷ 1 ∷ 2 ∷ 0 ∷ 2 ∷ 0 ∷ 0 ∷ 1 ∷ [];
  cp = 0;
}

abbrev client : Net
client = record (connection [] [] [] [] []) { ibuf = arrived }

abbrev search_info : Info
search_info = record {
  loctype = 1;
  maxnlocs = 2;
  dbname = [];
  country = [];
  userip = [];
  time = 0;
  locs = [];
}

enough_room : nlocs search_info ≡ 0
unfolding nlocs
enough_room = refl

empty_queue : strings asking.0.obufq ≡ []
unfolding connection
empty_queue = refl

one_answer : length (selected query.eq 5 (measured ∷ [])) ≡ 1
one_answer = ap (λ (l : List Record). length l) query_selects

arrived_lem : ahead arrived ≡ bytes_of (strings answered.0.obufq) ++ (1 ∷ [])
arrived_lem =
    let (p', e, n, q) =
      server_recv-query query (measured ∷ []) 0 {p = asking} asking-IsServing query-InRange
        query_checked refl refl in
    ap (λ l. bytes_of l ++ (1 ∷ []))
      (sym (
        q
        ∙ ap (λ l. strings asking.0.obufq ++ (reply_packets l ++ (last_packet (errno_of l) ∷ [])))
            query_selects
        ∙ ap (λ l. l ++ (reply_packets (measured ∷ []) ++ (last_packet 0 ∷ []))) empty_queue))

located : HasLocators (selected query.eq 5 (measured ∷ []))
located = rw query_selects (omega arith, omega arith, tt)

server_recv-client_read_example :
    (d : Buf) × (client_read 2 (client, receiver 0 0 search_info)
      ≡ some (
        ok (errno_of (selected query.eq 5 (measured ∷ []))),
        (
          record client { ibuf = d },
          receiver
              (errno_of (selected query.eq 5 (measured ∷ [])))
              (errno_of (selected query.eq 5 (measured ∷ [])))
              (with_found search_info (all_replies (selected query.eq 5 (measured ∷ [])))),
        ),
      ))
    × IsValid d
    × (ahead d ≡ 1 ∷ [])
server_recv-client_read_example =
    server_recv-client_read query (measured ∷ []) asking answered 0 2 0 0 search_info (1 ∷ [])
      client asking-IsServing query-InRange query_checked located empty_queue refl refl
      (server_recv-query query (measured ∷ []) 0 {p = asking} asking-IsServing query-InRange
        query_checked refl refl).1
      (omega (arith, one_answer)) (omega (arith, one_answer, enough_room)) (omega arith) refl
      arrived_lem

-- An event loop that has nothing to do.
abbrev idle : Net → Option Net
idle n = some n

idle-IsLoop : IsLoop idle
idle-IsLoop = record { ends = λ n s. (n, refl, s) }

session_lem_example :
    ((n : Net) × (new 22 4 true
          (some (replicate 4 0))
          (some (replicate 4 0))
          true
          true
          (97 ∷ [])
          (12 ∷ [])
          []
        ≡ some (ok n, 0))
      × (session idle 22 4 true
            (some (replicate 4 0))
            (some (replicate 4 0))
            true
            true
            (97 ∷ [])
            (12 ∷ [])
            []
          ≡ some 1))
    ⊎ ((new 22 4 true (some (replicate 4 0)) (some (replicate 4 0)) true true (97 ∷ []) (12 ∷ []) []
          ≡ some (bad 22, 1))
        × (session idle 22 4 true
              (some (replicate 4 0))
              (some (replicate 4 0))
              true
              true
              (97 ∷ [])
              (12 ∷ [])
              []
            ≡ some 2))
session_lem_example =
    session_lem idle 22 4 true (some (replicate 4 0)) (some (replicate 4 0)) true true (97 ∷ [])
      (12 ∷ []) [] idle-IsLoop (omega arith) (omega arith)
