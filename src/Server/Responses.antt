-- ===== src/Server/Responses.antt =====
-- The responses of kcndbd/kcndb_server.c to a search: what waits in the queue of the connection.
use kcn.Common.{
  ℕ, ◌+◌, ◌%◌, ◌≤◌, ◌≡◌, refl, sym, ap, ◌∙◌, List, [], ◌∷◌, ◌++◌, length, some, none, true, arith,
  ok, append_assoc, append-nil,
}
use kcn.Buf.{init}
use kcn.Buf.Fifo.{strings}
use kcn.Msg.{Response, response_encode, type_response, maxbodysiz}
use kcn.Msg.Bodies.{response_encode_lem}
use kcn.Net.{Net}
use kcn.Net.Ready.{IsReady, Sent, send_ready}
use kcn.Db.{Record}
use kcn.Db.Rounds.{handed}
use kcn.Client.Exchange.{Reply, reply_packet, last_packet}
use kcn.Server.Defs.{response_send, response_send_error, sent_response, search_cb}

-- The callback with a response that is sent.
handed_next :
    (r : Record) (n n' : Net)
    → response_send r 0 n ≡ some (ok tt, n')
    → search_cb r 0 (some (n, 0)) ≡ (true, some (n', 0))
unfolding search_cb sent_response
handed_next r n n' e = rw e refl

-- The size of a message, and with it of the connection's buffer for messages.
abbrev pub message_size : ℕ
message_size = 4 + maxbodysiz

abbrev pub reply : Record → Reply
reply r = record { score = 0; loc = r.loc }

-- The locators of all the records fit into messages.
abbrev pub Fits : List Record → Type 0
Fits [] = Unit {0}
Fits (r ∷ rs) = (2 + length r.loc ≤ maxbodysiz) × Fits rs

abbrev pub reply_packets : List Record → List (List ℕ)
reply_packets [] = []
reply_packets (r ∷ rs) = reply_packet (reply r) ∷ reply_packets rs

response_send_lem :
    (r : Record) {n : Net}
    → IsReady message_size n
    → 2 + length r.loc ≤ maxbodysiz
    → (n' : Net) × (response_send r 0 n ≡ some (ok tt, n'))
      × Sent message_size n (reply_packet (reply r)) n'
unfolding response_send init
response_send_lem r {n} h k =
    let m : Response = record { error = 0; score = 0; loc = some r.loc; loclen = length r.loc } in
    send_ready message_size (response_encode m) type_response (0 ∷ 0 ∷ r.loc) h
      (response_encode_lem m h.is_sound.obuf refl (omega (arith, h.obuf_size)))

response_send_error_lem :
    (e : ℕ) {n : Net}
    → IsReady message_size n
    → (n' : Net) × (response_send_error e n ≡ some (ok tt, n'))
      × Sent message_size n (last_packet e) n'
unfolding response_send_error init
response_send_error_lem e {n} h =
    let m : Response = record { error = e; score = 0; loc = none; loclen = 0 } in
    send_ready message_size (response_encode m) type_response ((e % 256) ∷ 0 ∷ []) h
      (response_encode_lem m h.is_sound.obuf refl (omega (arith, h.obuf_size)))

handed_lem :
    (rs : List Record) {n : Net}
    → Fits rs
    → IsReady message_size n
    → (n' : Net) × (handed search_cb rs (some (n, 0)) ≡ (true, some (n', 0)))
      × IsReady message_size n'
      × (strings n'.obufq ≡ strings n.obufq ++ reply_packets rs)
      × (n'.ibuf ≡ n.ibuf)
handed_lem [] {n} f h = (n, refl, h, sym (append-nil (strings n.obufq)), refl)
handed_lem (r ∷ rs) {n} f h =
    let (n1, e, (h1, q, _, _, _, i)) = response_send_lem r h f.0 in
    let (n', d, h', q', i') = handed_lem rs f.1 h1 in
    (
      n',
      rw (handed_next r n n1 e) d,
      h',
      q'
          ∙ ap (λ l. l ++ reply_packets rs) q
          ∙ append_assoc (strings n.obufq) (reply_packet (reply r) ∷ []) (reply_packets rs),
      i' ∙ i,
    )

-- kcndb_server_response_send as the callback of a search, on a connection that is up and whose calls
-- all succeed: for records in turn whose locators fit into messages, and at last with an errno, it
-- succeeds each time, and the queue of the connection has behind what it had one response for
-- each record, in their order, and the last one with the errno; what it has read is as it was.
pub responses_lem :
    (rs : List Record) (e : ℕ) {n : Net}
    → Fits rs
    → IsReady message_size n
    → (n1 : Net) × (n2 : Net) × (handed search_cb rs (some (n, 0)) ≡ (true, some (n1, 0)))
      × (response_send_error e n1 ≡ some (ok tt, n2))
      × IsReady message_size n2
      × (strings n2.obufq ≡ strings n.obufq ++ (reply_packets rs ++ (last_packet e ∷ [])))
      × (n2.ibuf ≡ n.ibuf)
responses_lem rs e {n} f h =
    let (n1, d, h1, q, i) = handed_lem rs f h in
    let (n2, g, (h2, q2, _, _, _, i2)) = response_send_error_lem e h1 in
    (
      n1,
      n2,
      d,
      g,
      h2,
      q2
          ∙ ap (λ l. l ++ (last_packet e ∷ [])) q
          ∙ append_assoc (strings n.obufq) (reply_packets rs) (last_packet e ∷ []),
      i2 ∙ i,
    )
