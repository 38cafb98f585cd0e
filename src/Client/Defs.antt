-- ===== src/Client/Defs.antt =====
-- The definitions of lib/kcn_client.c. The answer of malloc() for the copy of a locator is a flag of the
-- state; the event library and the socket are those of the connection.
use kcn.Common.{
  ℕ, zero, suc, List, [], ◌∷◌, Option, some, none, Bool, true, not, ◌==◌, if◌then◌else◌, M, Outcome,
  ok, bad, eagain, einval, etoomanyrefs,
}
use kcn.Common.Fallible.{E, ◌>>=◌, ◌>>◌}
use kcn.Buf.{Buf}
use kcn.Info.{Info, nlocs, loc_add}
use kcn.Msg.{
  Header, Response, Query, Add, header_decode, response_decode, query_encode, add_encode,
  type_response,
}
use kcn.Net.{Net, with_obuf, net_write, read_enable}

-- struct kcn_client_response with errno, which the function leaves to its caller, and the answers of
-- malloc() to come; where they end it succeeds.
pub record Receiver : Type 0 where
  pub error : ℕ
  pub info : Info
  pub errno : ℕ
  pub memory : List Bool

unfoldable pub next_memory : List Bool → Bool × List Bool
next_memory [] = (true, [])
next_memory (b ∷ l) = (b, l)

-- What a step of the loop of kcn_client_read leads to: the next round, or the end with errno as it is
-- or set.
pub data Round : Type 0 where
  again : Receiver → Round
  over : Receiver → Round
  over_with : ℕ → Receiver → Round

-- kcn_info_loc_add with the locator of a response; the pointer is read as far as the length says.
unfoldable pub store : Receiver → Option (List ℕ) → ℕ → ℕ → Option Round
unfolding next_memory
store r none len score = none
store r (some p) len score =
    let m = next_memory r.memory in
    let r' = record r { memory = m.1 } in
    elim (loc_add m.0 r.info p len score) [
      | none ↦ none
      | some o ↦ elim o [
        | ok ki ↦ some (again (record r' { info = ki }))
        | bad e ↦ some (over_with e r')
      ]
    ]

-- What the loop does with a response.
unfoldable pub take_response : Receiver → Response → Option Round
unfolding store
take_response r m =
    if m.loclen == 0
    then some (if m.error == eagain then over r else over_with m.error r)
    else if r.info.maxnlocs == nlocs r.info
    then some (over_with etoomanyrefs r)
    else store r m.loc m.loclen m.score

-- A round of the loop on the buffer: the answer of the decoders.
unfoldable pub response_of : Header → M Buf (Outcome Response)
response_of h b =
    if not (h.type == type_response) then some (bad einval, b) else response_decode h b

unfoldable pub next_response : M Buf (Outcome Response)
unfolding response_of
next_response b = elim (header_decode b) [
  | none ↦ none
  | some (o, b') ↦ elim o [ ok h ↦ response_of h b' | bad e ↦ some (bad e, b') ]
]

-- The end of kcn_client_read.
unfoldable pub finish : Receiver → ℕ → Outcome ℕ × Receiver
finish r e = (ok e, record r { error = e; errno = e })

-- The rounds of kcn_client_read. Each but the last drops a message, so that the fuel is enough that
-- exceeds the number of bytes.
unfoldable pub after_round :
    Round
    → (Receiver → Option ((Outcome ℕ × Receiver) × Buf))
    → Buf
    → Option ((Outcome ℕ × Receiver) × Buf)
unfolding finish
after_round (again r) more b = more r
after_round (over r) more b = some (finish r r.errno, b)
after_round (over_with e r) more b = some (finish r e, b)

unfoldable pub client_read_loop : ℕ → Receiver → Buf → Option ((Outcome ℕ × Receiver) × Buf)
unfolding next_response take_response after_round
client_read_loop zero r b = none
client_read_loop (suc fuel) r b = elim (next_response b) [
  | none ↦ none
  | some (o, b') ↦ elim o [
    | bad e ↦ some (finish r e, b')
    | ok m ↦ elim (take_response r m) [
      | none ↦ none
      | some x ↦ after_round x (λ r'. client_read_loop fuel r' b') b'
    ]
  ]
]

-- kcn_client_read, the callback of the connection: its answer is errno.
unfoldable pub client_read : ℕ → E (Net × Receiver) ℕ
unfolding client_read_loop
client_read fuel p = elim (client_read_loop fuel p.1 p.0.ibuf) [
  | none ↦ none
  | some (x, b) ↦ some (x.0, (record (p.0) { ibuf = b }, x.1))
]

-- kcn_client_query_send
unfoldable pub query_send : Query → E Net (Unit {0})
query_send q = do b ← with_obuf (query_encode q); net_write b; read_enable

-- kcn_client_add_send
unfoldable pub add_send : Add → E Net (Unit {0})
add_send a = do b ← with_obuf (add_encode a); net_write b
