-- ===== src/Server/Answers.antt =====
-- A search from the records in kcndbd/kcndb_server.c to the locators in lib/kcn_client.c.
use kcn.Common.{
  ℕ, suc, ◌+◌, ◌%◌, ◌/◌, ◌≤◌, ◌<◌, ◌≡◌, ◌≢◌, refl, sym, ap, ◌∙◌, List, [], ◌∷◌, ◌++◌, length, some,
  arith, ok, eagain, IsByte, append_assoc,
}
use kcn.Buf.{Buf}
use kcn.Buf.View.{IsValid, ahead}
use kcn.Buf.Fifo.{strings}
use kcn.Info.{Info, nlocs}
use kcn.Msg.{Query, query_check, type_query, maxbodysiz}
use kcn.Msg.Encode.{packet}
use kcn.Msg.Bodies.{query_bytes}
use kcn.Msg.Fields.{InRange}
use kcn.Net.{Net}
use kcn.Net.Waiting.{bytes_of}
use kcn.Db.{Record}
use kcn.Db.Selection.{selected}
use kcn.Client.{client_read}
use kcn.Client.Exchange.{
  Reply, last_packet, replies, Sendable, receiver, with_found, client_read-replies,
}
use kcn.Server.Defs.{Thread, server_recv}
use kcn.Server.Responses.{reply, reply_packets}
use kcn.Server.Queries.{IsServing, errno_of}
use kcn.Server.Requests.{server_recv-query}

abbrev pub all_replies : List Record → List Reply
all_replies [] = []
all_replies (r ∷ rs) = reply r ∷ all_replies rs

-- The locators of all the records are not empty and fit into messages.
abbrev pub HasLocators : List Record → Type 0
HasLocators [] = Unit {0}
HasLocators (r ∷ rs) = (1 ≤ length r.loc) × (2 + length r.loc ≤ maxbodysiz) × HasLocators rs

HasLocators-Sendable : (rs : List Record) → HasLocators rs → Sendable (all_replies rs)
HasLocators-Sendable [] h = tt
HasLocators-Sendable (r ∷ rs) h = (h.0, h.1, HasLocators-Sendable rs h.2)

abbrev packet_head : Record → List ℕ
packet_head r =
    1 ∷ 2 ∷ ((suc (suc (length r.loc)) / 256) % 256) ∷ (suc (suc (length r.loc)) % 256) ∷ 0 ∷ 0 ∷ []

-- The queue as bytes.
bytes_of-reply_packets :
    (rs : List Record) (e : ℕ) (rest : List ℕ)
    → bytes_of (reply_packets rs ++ (last_packet e ∷ [])) ++ rest
      ≡ replies (all_replies rs) (last_packet e ++ rest)
bytes_of-reply_packets [] e rest = refl
bytes_of-reply_packets (r ∷ rs) e rest =
    ap (λ l. packet_head r ++ l)
      (append_assoc r.loc (bytes_of (reply_packets rs ++ (last_packet e ∷ []))) rest
        ∙ ap (λ l. r.loc ++ l) (bytes_of-reply_packets rs e rest))

all_replies-length : (rs : List Record) → length (all_replies rs) ≡ length rs
all_replies-length [] = refl
all_replies-length (r ∷ rs) = ap (λ n. suc n) (all_replies-length rs)

errno_of-IsByte : (rs : List Record) → IsByte (errno_of rs) × (errno_of rs ≢ eagain)
errno_of-IsByte [] = (omega arith, omega arith)
errno_of-IsByte (r ∷ rs) = (omega arith, omega arith)

-- A search from end to end. kcndb_server_recv has a query in its buffer, whose fields are in range and
-- whose type of locator is known, for a thread whose table of the query's type holds some records, on
-- a connection that is up, whose calls all succeed and whose queue is empty; the locators of the
-- records that the query selects are neither empty nor too long for a message. Where the bytes of the
-- server's queue, with any bytes behind, lie ahead in the buffer of a client whose search has room and
-- memory for the locators, kcn_client_read answers 0, or ESRCH if no record matches the condition. It
-- has found the locators of the records that match, in the order of the table and as many as the query
-- asks for at most, with score 0; the bytes behind are still ahead.
pub server_recv-client_read :
    (q : Query) (rs : List Record) (p p' : Net × Thread) (more fuel e0 e1 : ℕ) (ki : Info)
    (rest : List ℕ) (c : Net)
    → IsServing q rs p
    → InRange q
    → query_check q ≡ ok q
    → HasLocators (selected q.eq q.maxcount rs)
    → strings p.0.obufq ≡ []
    → p.0.ibuf.cp ≡ p.0.ibuf.sp
    → ahead p.0.ibuf ≡ packet type_query (query_bytes q)
    → server_recv (suc (suc more)) p ≡ some (ok eagain, p')
    → length (selected q.eq q.maxcount rs) < fuel
    → nlocs ki + length (selected q.eq q.maxcount rs) ≤ ki.maxnlocs
    → IsValid c.ibuf
    → c.ibuf.cp ≡ c.ibuf.sp
    → ahead c.ibuf ≡ bytes_of (strings p'.0.obufq) ++ rest
    → (d : Buf) × (client_read fuel (c, receiver e0 e1 ki)
        ≡ some (
          ok (errno_of (selected q.eq q.maxcount rs)),
          (
            record c { ibuf = d },
            receiver
                (errno_of (selected q.eq q.maxcount rs))
                (errno_of (selected q.eq q.maxcount rs))
                (with_found ki (all_replies (selected q.eq q.maxcount rs))),
          ),
        ))
      × IsValid d
      × (ahead d ≡ rest)
server_recv-client_read q rs p p' more fuel e0 e1 ki rest c s v y l z o i g f m w k t =
    let sel = selected q.eq q.maxcount rs in
    let e = errno_of sel in
    let (p1, g1, _, a) = server_recv-query q rs more s v y o i in
    let n : p1 ≡ p' = cc in
    let x : strings p'.0.obufq ≡ reply_packets sel ++ (last_packet e ∷ []) =
      ap (λ (o : Net × Thread). strings o.0.obufq) (sym n)
      ∙ a
      ∙ ap (λ r. r ++ (reply_packets sel ++ (last_packet e ∷ []))) z in
    client_read-replies (all_replies sel) fuel e0 e1 e ki rest c (HasLocators-Sendable sel l)
      (omega (arith, all_replies-length sel)) (omega (arith, all_replies-length sel))
      (errno_of-IsByte sel).0 (errno_of-IsByte sel).1 w k
      (t ∙ ap (λ r. bytes_of r ++ rest) x ∙ bytes_of-reply_packets sel e rest)
