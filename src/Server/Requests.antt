-- ===== src/Server/Requests.antt =====
-- The loop of kcndb_server_recv (kcndbd/kcndb_server.c) on a query that has arrived.
use kcn.Common.{
  ℕ, suc, ◌-◌, ◌<◌, ◌≡◌, refl, sym, ap, ◌∙◌, List, [], ◌∷◌, ◌++◌, length, some, true, false, ltb,
  lt→ltb, le→ltb, append-nil, arith, ok, eagain,
}
use kcn.Common.Fallible.{◌>>=◌, attempt}
use kcn.Buf.{Buf}
use kcn.Buf.View.{IsValid, ahead, trailingdata_lem}
use kcn.Buf.Load.{length-ahead}
use kcn.Buf.Fifo.{strings}
use kcn.Msg.{Header, Query, header_decode, query_check, type_query}
use kcn.Msg.Encode.{packet}
use kcn.Msg.Bodies.{query_bytes}
use kcn.Msg.Fields.{InRange, query_decode_lem}
use kcn.Msg.RoundTrip.{header_decode-packet}
use kcn.Net.{Net}
use kcn.Net.Ready.{IsReady}
use kcn.Db.{Record}
use kcn.Db.Selection.{selected}
use kcn.Client.Exchange.{last_packet}
use kcn.Server.Defs.{Thread, process, query_process, processed, with_header, server_recv}
use kcn.Server.Queries.{IsServing, errno_of, query_process_lem}
use kcn.Server.Responses.{message_size, reply_packets}

-- A round whose message is processed.
recv_round :
    (fuel : ℕ) (h : Header) (c : Buf) (p p' : Net × Thread)
    → IsValid p.0.ibuf
    → p.0.ibuf.cp < p.0.ibuf.ep
    → header_decode p.0.ibuf ≡ some (ok h, c)
    → process h (record (p.0) { ibuf = c }, p.1) ≡ some (ok tt, p')
    → server_recv (suc fuel) p ≡ server_recv fuel p'
unfolding server_recv with_header processed
recv_round fuel h c p p' v l d g =
    let t : ltb 0 (p.0.ibuf.ep - p.0.ibuf.cp) ≡ true =
      lt→ltb 0 (p.0.ibuf.ep - p.0.ibuf.cp) (omega arith) in
    rw (server_recv, trailingdata_lem v, t, ◌>>=◌, d, with_header, attempt, g) refl

-- The last round, with nothing ahead.
recv_end :
    (fuel : ℕ) (p : Net × Thread)
    → IsValid p.0.ibuf
    → ahead p.0.ibuf ≡ []
    → server_recv (suc fuel) p ≡ some (ok eagain, p)
unfolding server_recv
recv_end fuel p v a =
    let t : ltb 0 (p.0.ibuf.ep - p.0.ibuf.cp) ≡ false =
      le→ltb 0 (p.0.ibuf.ep - p.0.ibuf.cp)
        (omega (arith, length-ahead v, ap (λ (l : List ℕ). length l) a)) in
    rw (server_recv, trailingdata_lem v, t) refl

process-query :
    process (record { ver = 1; type = type_query; len = 28 })
    ≡ query_process (record { ver = 1; type = type_query; len = 28 })
unfolding process
process-query = refl

-- kcndb_server_recv with a query in its buffer and nothing behind it, whose fields are in range and whose
-- type of locator is known, for a thread whose table of the query's type holds some records, on a
-- connection that is up and whose calls all succeed, where the locators that are selected fit into
-- messages: it waits for more, and the connection is as ready as before. Its queue has behind what it
-- had one response for each record that matches the condition, in the order of the table and not more
-- than the query asks for, with its locator; and the last response, whose errno is 0, or ESRCH if no
-- record matches.
pub server_recv-query :
    (q : Query) (rs : List Record) (fuel : ℕ) {p : Net × Thread}
    → IsServing q rs p
    → InRange q
    → query_check q ≡ ok q
    → p.0.ibuf.cp ≡ p.0.ibuf.sp
    → ahead p.0.ibuf ≡ packet type_query (query_bytes q)
    → (p' : Net × Thread) × (server_recv (suc (suc fuel)) p ≡ some (ok eagain, p'))
      × IsReady message_size p'.0
      × (strings p'.0.obufq
          ≡ strings p.0.obufq
            ++ (reply_packets (selected q.eq q.maxcount rs)
                ++ (last_packet (errno_of (selected q.eq q.maxcount rs)) ∷ [])))
server_recv-query q rs fuel {p} s f k z a =
    let h : Header = record { ver = 1; type = type_query; len = 28 } in
    let v = s.ready.is_sound.ibuf in
    let (c, d, w, y, x) =
      header_decode-packet type_query (query_bytes q) [] v z (omega arith)
        (a ∙ sym (append-nil (packet type_query (query_bytes q)))) in
    let (b, e, u, l, _) = query_decode_lem q type_query [] w f x in
    let m = s.ready.is_sound in
    let p1 : Net × Thread = (record (p.0) { ibuf = c }, p.1) in
    let s1 : IsServing q rs p1 = record {
      ready = record {
        is_sound = record { suits = m.suits; ibuf = w; obuf = m.obuf; queue = m.queue };
        is_up = s.ready.is_up;
        no_adds = s.ready.no_adds;
        no_mallocs = s.ready.no_mallocs;
        obuf_size = s.ready.obuf_size;
      };
      table = s.table;
      lookup = s.lookup;
      holds = s.holds;
      fuel = s.fuel;
      fits = s.fits;
    } in
    let (p', g, n, r, i) = query_process_lem h q rs b {p = p1} s1 (e ∙ ap (λ o. some (o, b)) k) u in
    let step =
      recv_round (suc fuel) h c p p' v
        (omega (arith, length-ahead v, ap (λ (o : List ℕ). length o) a)) d (rw process-query g) in
    (p', step ∙ recv_end fuel p' r.is_sound.ibuf (rw i l), r, n)
