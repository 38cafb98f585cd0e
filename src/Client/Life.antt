-- ===== src/Client/Life.antt =====
-- The life of a connection of the client (lib/kcn_client.c), whose callback is kcn_client_read.
use kcn.Common.{
  ℕ, zero, suc, ◌==◌, not, Option, some, none, Bool, true, false, Outcome, ok, bad, einval,
  if◌then◌else◌,
}
use kcn.Buf.{Buf}
use kcn.Buf.View.{IsValid}
use kcn.Msg.{Header, Response, header_decode, response_decode, type_response}
use kcn.Msg.Valid.{After, Keeps, header_decode-Keeps, response_decode-Keeps}
use kcn.Net.{Net}
use kcn.Net.Sound.{IsSound, IsUp}
use kcn.Net.Receive.{IsReader, StaysUp}
use kcn.Net.Life.{Reach, Reach-IsSound}
use kcn.Client.Defs.{
  Receiver, Round, again, over, over_with, response_of, next_response, take_response, after_round,
  client_read_loop, client_read, finish,
}

response_of-Keeps : (h : Header) → Keeps (response_of h)
unfolding response_of
response_of-Keeps h = go (not (h.type == type_response))
  where
    go :
        (c : Bool)
        → Keeps {A = Outcome Response}
            (λ b. if c then some (bad einval, b) else response_decode h b)
    go true b v = v
    go false b v = response_decode-Keeps h b v

header_read :
    (x : Option (Outcome Header × Buf))
    → After x
    → After (elim x as (λ y. Option (Outcome Response × Buf)) [
      | none ↦ none
      | some (o, b) ↦ elim o [ ok h ↦ response_of h b | bad e ↦ some (bad e, b) ]
    ])
header_read none h = tt
header_read (some (bad e, b)) v = v
header_read (some (ok h, b)) v = response_of-Keeps h b v

next_response-Keeps : Keeps next_response
unfolding next_response
next_response-Keeps b v = header_read (header_decode b) (header_decode-Keeps b v)

round_keeps :
    (fuel : ℕ) (b : Buf) (x : Option Round)
    → IsValid b
    → ((r : Receiver) → After (client_read_loop fuel r b))
    → After (elim x as (λ y. Option ((Outcome ℕ × Receiver) × Buf)) [
      | none ↦ none
      | some y ↦ after_round y (λ r. client_read_loop fuel r b) b
    ])
unfolding after_round
round_keeps fuel b none v k = tt
round_keeps fuel b (some (again r)) v k = k r
round_keeps fuel b (some (over r)) v k = v
round_keeps fuel b (some (over_with e r)) v k = v

client_read_loop-Keeps : (fuel : ℕ) (r : Receiver) → Keeps (client_read_loop fuel r)
unfolding client_read_loop
client_read_loop-Keeps zero r b v = tt
client_read_loop-Keeps (suc fuel) r b v =
    go (next_response b) (next_response-Keeps b v) (λ r' c w. client_read_loop-Keeps fuel r' c w)
  where
    go :
        (x : Option (Outcome Response × Buf))
        → After x
        → ((r' : Receiver) → Keeps (client_read_loop fuel r'))
        → After (elim x as (λ y. Option ((Outcome ℕ × Receiver) × Buf)) [
          | none ↦ none
          | some (o, c) ↦ elim o [
            | bad e ↦ some (finish r e, c)
            | ok m ↦ elim (take_response r m) [
              | none ↦ none
              | some y ↦ after_round y (λ r'. client_read_loop fuel r' c) c
            ]
          ]
        ])
    go none h k = tt
    go (some (bad e, c)) w k = w
    go (some (ok m, c)) w k = round_keeps fuel c (take_response r m) w (λ r'. k r' c w)

client_read-IsReader : (fuel : ℕ) → IsReader (client_read fuel)
unfolding client_read
client_read-IsReader fuel = record {
  keeps = λ p s u.
      go p s u (client_read_loop fuel p.1 p.0.ibuf)
        (client_read_loop-Keeps fuel p.1 p.0.ibuf s.ibuf);
}
  where
    go :
        (p : Net × Receiver)
        → IsSound p.0
        → IsUp p.0.state
        → (x : Option ((Outcome ℕ × Receiver) × Buf)) → After x
        → StaysUp (elim x as (λ y. Option (Outcome ℕ × (Net × Receiver))) [
          | none ↦ none
          | some (y, b) ↦ some (y.0, (record (p.0) { ibuf = b }, y.1))
        ])
    go p s u none h = tt
    go p s u (some (y, b)) v =
        (record { suits = s.suits; ibuf = v; obuf = s.obuf; queue = s.queue }, u)

-- In every state that a connection of the client reaches from a sound one, by any calls of its owner and any
-- callbacks of the event library that return, whatever their order and with any answers of the
-- system and any bytes of the server: the connection is sound. So reading is enabled only if it is established; a
-- connection that is down has no pending event, and its descriptor was closed just once; that of
-- any other connection is open; and every buffer that waits is valid.
pub Reach-client_read :
    (fuel : ℕ) {p q : Net × Receiver} → IsSound p.0 → Reach (client_read fuel) p q → IsSound q.0
Reach-client_read fuel s t = Reach-IsSound (client_read fuel) (client_read-IsReader fuel) s t
