-- ===== src/Server/Queries.antt =====
-- A query in kcndbd/kcndb_server.c, from its bytes to the queue of the connection.
use kcn.Common.{
  ℕ, suc, ◌<◌, ◌≡◌, refl, ap, ◌∙◌, List, [], ◌∷◌, ◌++◌, length, Option, Bool, some, true, false,
  ◌==◌, arith, Outcome, ok, esrch,
}
use kcn.Common.Fallible.{◌>>=◌, ◌>>◌, focus, attempt}
use kcn.Buf.{Buf}
use kcn.Buf.View.{IsValid}
use kcn.Buf.Fifo.{strings}
use kcn.Msg.{Header, Query, query_decode}
use kcn.Net.{Net}
use kcn.Net.Ready.{IsReady}
use kcn.Db.{Record, Table, Tables, table_lookup, table_put, on_type, search, db_search}
use kcn.Eq.{Eq}
use kcn.Db.Search.{search-selected}
use kcn.Db.Rounds.{handed}
use kcn.Db.Selection.{IsTable, selected, answer}
use kcn.Client.Exchange.{last_packet}
use kcn.Server.Defs.{Thread, search_cb, search_errno, query_search, query_errno, query_process}
use kcn.Server.Responses.{message_size, reply_packets, Fits, responses_lem}

-- The errno of a search that selects these records.
abbrev pub errno_of : List Record → ℕ
errno_of [] = esrch
errno_of (r ∷ rs) = 0

-- A thread whose table of the query's type holds the records `rs`, on a connection that is up and whose
-- calls all succeed; the locators that the query selects fit into messages.
pub record IsServing (q : Query) (rs : List Record) (p : Net × Thread) : Type 0 where
  pub ready : IsReady message_size p.0
  pub table : Table
  pub lookup : table_lookup p.1.db q.eq.type ≡ some table
  pub holds : IsTable q.eq rs table
  pub fuel : length rs < p.1.fuel
  pub fits : Fits (selected q.eq q.maxcount rs)

errno_lem : (rs : List Record) → search_errno (answer true (length rs)) 0 ≡ errno_of rs
unfolding search_errno
errno_lem [] = refl
errno_lem (r ∷ rs) = let z : (suc (length rs) == 0) ≡ false = ground arith in rw z refl

db_search_lem :
    {S : Type 0} (cb : Record → ℕ → S → Bool × S) (fuel : ℕ) (ke : Eq) (max : ℕ) (kd : Tables)
    (s : S) (t u : Table) (o : Outcome (Unit {0})) (s' : S)
    → table_lookup kd ke.type ≡ some t
    → search cb fuel ke max (t, s) ≡ some (o, (u, s'))
    → db_search cb fuel ke max (kd, s) ≡ some (o, (table_put kd ke.type u, s'))
unfolding db_search on_type
db_search_lem cb fuel ke max kd s t u o s' l e = rw (db_search, on_type, l, e) refl

query_search_lem :
    (q : Query) (rs : List Record) (n n1 : Net) (th : Thread) (t : Table)
    → table_lookup th.db q.eq.type ≡ some t
    → IsTable q.eq rs t
    → length rs < th.fuel
    → handed search_cb (selected q.eq q.maxcount rs) (some (n, 0)) ≡ (true, some (n1, 0))
    → (th' : Thread) × (query_search q (n, th)
        ≡ some (ok (errno_of (selected q.eq q.maxcount rs)), (n1, th')))
unfolding query_search
query_search_lem q rs n n1 th t l h f d =
    let (u, e) = search-selected search_cb rs th.fuel q.eq q.maxcount t (some (n, 0)) f h in
    let sel = selected q.eq q.maxcount rs in
    let e' = e ∙ ap (λ (h : Bool × Option (Net × ℕ)). some (answer h.0 (length sel), (u, h.1))) d in
    let x =
      db_search_lem search_cb th.fuel q.eq q.maxcount th.db (some (n, 0)) t u
        (answer true (length sel)) (some (n1, 0)) l e' in
    (record th { db = table_put th.db q.eq.type u }, rw (query_search, x, errno_lem sel) refl)

-- What kcndb_server_query_process does behind the decoder, where the connection is up and its calls all
-- succeed: the responses wait in the queue, the last with the errno of the search.
pub query_process_lem :
    (h : Header) (q : Query) (rs : List Record) (b : Buf) {p : Net × Thread}
    → IsServing q rs p
    → query_decode h p.0.ibuf ≡ some (ok q, b)
    → IsValid b
    → (p' : Net × Thread) × (query_process h p ≡ some (ok tt, p'))
      × (strings p'.0.obufq
          ≡ strings p.0.obufq
            ++ (reply_packets (selected q.eq q.maxcount rs)
                ++ (last_packet (errno_of (selected q.eq q.maxcount rs)) ∷ [])))
      × IsReady message_size p'.0
      × (p'.0.ibuf ≡ b)
unfolding query_process query_errno
query_process_lem h q rs b {p} s e v =
    let sel = selected q.eq q.maxcount rs in
    let k = s.ready.is_sound in
    let n : Net = record (p.0) { ibuf = b } in
    let r : IsReady message_size n = record {
      is_sound = record { suits = k.suits; ibuf = v; obuf = k.obuf; queue = k.queue };
      is_up = s.ready.is_up;
      no_adds = s.ready.no_adds;
      no_mallocs = s.ready.no_mallocs;
      obuf_size = s.ready.obuf_size;
    } in
    let (n1, n2, d, g, r', a, i) = responses_lem sel (errno_of sel) s.fits r in
    let (th, x) = query_search_lem q rs n n1 p.1 s.table s.lookup s.holds s.fuel d in
    ((n2, th), rw (query_process, ◌>>=◌, ◌>>◌, e, query_errno, x, attempt, focus, g) refl, a, r', i)
