-- ===== src/Server/Defs.antt =====
-- The definitions of kcndbd/kcndb_server.c: one thread on a connection. What time() answers and the fuel
-- of the database are fields of the thread.
use kcn.Common.{
  ℕ, zero, suc, length, Option, some, none, Bool, true, false, ltb, ◌==◌, if◌then◌else◌, M, Outcome,
  ok, bad, eagain, eopnotsupp,
}
use kcn.Common.Fallible.{E, ◌>>=◌, ◌>>◌, pure, fail, lift, focus, attempt}
use kcn.Buf
use kcn.Buf.{Buf}
use kcn.Eq.{time_now}
use kcn.Msg.{
  Header, Query, Add, header_decode, query_decode, add_decode, response_encode, type_query,
  type_add,
}
use kcn.Net.{Net, with_obuf, net_write}
use kcn.Db.{Record, Tables, db_search, db_record_add}

-- struct kcndb_thread, as far as a session uses it
pub record Thread : Type 0 where
  pub db : Tables
  pub clock : Outcome ℕ
  pub fuel : ℕ

-- kcndb_server_response_send of a record
unfoldable pub response_send : Record → ℕ → E Net (Unit {0})
response_send r score = do
  b ← with_obuf (
      response_encode
        (record { error = 0; score = score; loc = some r.loc; loclen = length r.loc }))
  net_write b

-- kcndb_server_response_send of KCNDB_SERVER_RESPONSE_MAGIC: the last response, with an error
unfoldable pub response_send_error : ℕ → E Net (Unit {0})
response_send_error e = do
  b ← with_obuf (response_encode (record { error = e; score = 0; loc = none; loclen = 0 }))
  net_write b

-- The callback of a search. Its state is the connection with errno, or none where it has aborted.
unfoldable pub sent_response : Option (Outcome (Unit {0}) × Net) → ℕ → Bool × Option (Net × ℕ)
sent_response none e = (false, none)
sent_response (some (ok u, n)) e = (true, some (n, e))
sent_response (some (bad e', n)) e = (false, some (n, e'))

unfoldable pub search_cb : Record → ℕ → Option (Net × ℕ) → Bool × Option (Net × ℕ)
unfolding sent_response response_send
search_cb r score none = (false, none)
search_cb r score (some (n, e)) = sent_response (response_send r score n) e

abbrev pub on_ibuf : {A : Type 0} → M Buf A → E (Net × Thread) A
on_ibuf m = lift (λ p. p.0.ibuf) (λ b p. (record (p.0) { ibuf = b }, p.1)) m

abbrev pub on_conn : {A : Type 0} → E Net A → E (Net × Thread) A
on_conn m = focus (λ p. p.0) (λ n p. (n, p.1)) m

-- errno behind a search: 0 where it has succeeded; a callback that fails has set it.
unfoldable pub search_errno : Outcome (Unit {0}) → ℕ → ℕ
search_errno (ok u) e = 0
search_errno (bad e') e = if e' == 0 then e else e'

-- kcndb_db_search on the connection of the client: errno behind it
unfoldable pub query_search : Query → E (Net × Thread) ℕ
unfolding search_errno search_cb
query_search q p = elim (db_search search_cb p.1.fuel q.eq q.maxcount (p.1.db, some (p.0, 0))) [
  | none ↦ none
  | some (o, x) ↦ elim x.1 [
    | none ↦ none
    | some (n, e) ↦ some (ok (search_errno o e), (n, record (p.1) { db = x.0 }))
  ]
]

unfoldable pub query_errno : Outcome Query → E (Net × Thread) ℕ
unfolding query_search
query_errno (ok q) = query_search q
query_errno (bad e) = pure e

-- kcndb_server_query_process
unfoldable pub query_process : Header → E (Net × Thread) (Unit {0})
unfolding query_errno response_send_error
query_process h = do
  o ← on_ibuf (query_decode h)
  e ← query_errno o
  attempt (on_conn (response_send_error e))
  pure tt

-- The time of an addition: its own, or that of the clock.
unfoldable pub add_time : Add → Outcome ℕ → Outcome ℕ
add_time a clock = if a.time == time_now then clock else ok a.time

unfoldable pub record_of : Add → ℕ → Record
record_of a t = record { time = t; val = a.val; locidx = 0; loc = a.loc }

unfoldable pub db_add : ℕ → Record → E (Net × Thread) (Unit {0})
db_add type r p = elim (db_record_add p.1.fuel type r (p.1.db, tt)) [
  | none ↦ none
  | some (o, x) ↦ some (elim o [ ok i ↦ ok tt | bad e ↦ bad e ], (p.0, record (p.1) { db = x.0 }))
]

unfoldable pub add_at : Add → Outcome ℕ → E (Net × Thread) (Unit {0})
unfolding db_add record_of
add_at a (ok t) = db_add a.type (record_of a t)
add_at a (bad e) = fail e

unfoldable pub add_decoded : Outcome Add → E (Net × Thread) (Unit {0})
unfolding add_at add_time
add_decoded (ok a) p = add_at a (add_time a p.1.clock) p
add_decoded (bad e) p = some (bad e, p)

-- kcndb_server_add_process
unfoldable pub add_process : Header → E (Net × Thread) (Unit {0})
unfolding add_decoded
add_process h = do o ← on_ibuf (add_decode h); add_decoded o

-- The switch of kcndb_server_recv
unfoldable pub process : Header → E (Net × Thread) (Unit {0})
unfolding query_process add_process
process h =
    if h.type == type_query
    then query_process h
    else if h.type == type_add
    then add_process h
    else fail eopnotsupp

-- A message that is processed, with the rounds after it; its error ends the loop.
unfoldable pub processed : Outcome (Unit {0}) → E (Net × Thread) ℕ → E (Net × Thread) ℕ
processed (ok u) more = more
processed (bad e) more = if e == eagain then on_ibuf Buf.start >> pure e else pure e

unfoldable pub with_header : Outcome Header → E (Net × Thread) ℕ → E (Net × Thread) ℕ
unfolding process processed
with_header (bad e) more = pure e
with_header (ok h) more = do o ← attempt (process h); processed o more

-- kcndb_server_recv, the callback of the connection: its answer is errno. A round drops the header of a
-- message at least, so that the fuel is enough that exceeds the number of bytes.
unfoldable pub server_recv : ℕ → E (Net × Thread) ℕ
unfolding with_header
server_recv zero p = none
server_recv (suc fuel) p = elim (Buf.trailingdata p.0.ibuf) [
  | none ↦ none
  | some (t, _) ↦ elim (ltb 0 t) [
    | false ↦ some (ok eagain, p)
    | true ↦ (on_ibuf header_decode >>= λ o. with_header o (server_recv fuel)) p
  ]
]
