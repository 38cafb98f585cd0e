-- ===== src/Msg/Defs.antt =====
-- The definitions of lib/kcn_msg.h and lib/kcn_msg.c.
use kcn.Common.{
  ℕ, ◌+◌, ◌-◌, List, Option, some, none, M, ◌>>=◌, ◌>>◌, pure, gets, ltb, ◌==◌, not, ◌||◌,
  if◌then◌else◌, take, drop, sub_size, Outcome, ok, bad, eagain, eopnotsupp, e2big, einval,
}
use kcn.Buf
use kcn.Buf.{Buf}
use kcn.Eq.{Eq}

abbrev pub version : ℕ
version = 1

-- KCN_MSG_HDRSIZ, KCN_MSG_MAXSIZ and KCN_MSG_MAXBODYSIZ
abbrev pub hdrsiz : ℕ
hdrsiz = 4

abbrev pub maxsiz : ℕ
maxsiz = 4096

abbrev pub maxbodysiz : ℕ
maxbodysiz = maxsiz - hdrsiz

abbrev pub query_siz : ℕ
query_siz = 1 + 1 + 1 + 1 + 8 + 8 + 8

abbrev pub response_minsiz : ℕ
response_minsiz = 1 + 1

abbrev pub add_minsiz : ℕ
add_minsiz = 1 + 8 + 8

-- KCN_MSG_MAXLOCSIZ
abbrev pub maxlocsiz : ℕ
maxlocsiz = maxbodysiz - Prim.Native.Nat.max response_minsiz add_minsiz

-- enum kcn_msg_type
abbrev pub type_query : ℕ
type_query = 1

abbrev pub type_response : ℕ
type_response = 2

abbrev pub type_add : ℕ
type_add = 3

abbrev pub type_del : ℕ
type_del = 4

-- enum kcn_loc_type of lib/kcn.h
abbrev pub loc_domainname : ℕ
loc_domainname = 0

abbrev pub loc_uri : ℕ
loc_uri = 1

pub record Header : Type 0 where
  pub ver : ℕ
  pub type : ℕ
  pub len : ℕ

pub record Query : Type 0 where
  pub loctype : ℕ
  pub maxcount : ℕ
  pub eq : Eq

-- A locator is the bytes that the pointer leads to; `none` is the null pointer.
pub record Response : Type 0 where
  pub error : ℕ
  pub score : ℕ
  pub loc : Option (List ℕ)
  pub loclen : ℕ

pub record Add : Type 0 where
  pub type : ℕ
  pub time : ℕ
  pub val : ℕ
  pub loc : List ℕ
  pub loclen : ℕ

unfoldable pub pkt_init : M Buf (Unit {0})
pkt_init = Buf.reset hdrsiz

unfoldable pub header_encode : ℕ → M Buf (Unit {0})
header_encode type = do
  Buf.prepend hdrsiz
  Buf.put8 version
  Buf.put8 type
  n ← gets Buf.len
  Buf.put16 (sub_size n hdrsiz)

-- The data before the cursor is dropped, as each decoder ends.
unfoldable pub consume : M Buf (Unit {0})
consume = do n ← Buf.headingdata; Buf.trim_head n

-- The end of kcn_msg_header_decode: a body that has not arrived as a whole puts the cursor back.
unfoldable pub header_body : Header → M Buf (Outcome Header)
header_body h = do
  t ← Buf.trailingdata
  if ltb t h.len then Buf.start >> pure (bad eagain) else consume >> pure (ok h)

-- kcn_msg_header_decode once the four bytes of the header are read.
unfoldable pub header_check : Header → M Buf (Outcome Header)
header_check h =
    if not (h.ver == version)
    then pure (bad eopnotsupp)
    else if ltb maxbodysiz h.len
    then pure (bad e2big)
    else header_body h

unfoldable pub header_read : M Buf Header
header_read = do
  v ← Buf.get8
  t ← Buf.get8
  n ← Buf.get16
  pure (record { ver = v; type = t; len = n })

unfoldable pub header_decode : M Buf (Outcome Header)
header_decode = do
  t ← Buf.trailingdata
  if ltb t hdrsiz then pure (bad eagain) else header_read >>= header_check

unfoldable pub query_encode : Query → M Buf (Unit {0})
query_encode q = do
  pkt_init
  Buf.put8 q.loctype
  Buf.put8 q.maxcount
  Buf.put8 q.eq.type
  Buf.put8 q.eq.op
  Buf.put64 q.eq.val
  Buf.put64 q.eq.start
  Buf.put64 q.eq.end
  header_encode type_query

unfoldable pub query_read : M Buf Query
query_read = do
  l ← Buf.get8
  m ← Buf.get8
  t ← Buf.get8
  o ← Buf.get8
  v ← Buf.get64
  s ← Buf.get64
  e ← Buf.get64
  let eq : Eq = record { type = t; op = o; val = v; start = s; end = e }
  pure (record { loctype = l; maxcount = m; eq = eq })

-- The switch on the type of the locator.
unfoldable pub query_check : Query → Outcome Query
query_check q = if q.loctype == loc_domainname || q.loctype == loc_uri then ok q else bad einval

unfoldable pub query_body : M Buf (Outcome Query)
query_body = do Buf.need query_siz; q ← query_read; consume; pure (query_check q)

unfoldable pub query_decode : Header → M Buf (Outcome Query)
query_decode h = if not (h.len == query_siz) then pure (bad einval) else query_body

unfoldable pub response_init : Response
response_init = record { error = 0; score = 0; loc = none; loclen = 0 }

unfoldable pub response_loc : Option (List ℕ) → ℕ → M Buf (Unit {0})
response_loc none n = pure tt
response_loc (some p) n = Buf.put p n

unfoldable pub response_encode : Response → M Buf (Unit {0})
response_encode r = do
  pkt_init
  Buf.put8 r.error
  Buf.put8 r.score
  response_loc r.loc r.loclen
  header_encode type_response

-- What a pointer to the cursor leads to, `n` bytes long.
abbrev pub current : ℕ → Buf → List ℕ
current n b = take n (drop b.cp b.bytes)

-- kcn_msg_response_decode behind the two numbers, with the length of the locator.
unfoldable pub response_rest : ℕ → ℕ → ℕ → M Buf (Outcome Response)
response_rest e s m = do
  p ← gets (current m)
  Buf.forward m
  consume
  let loc : Option (List ℕ) = if ltb 0 m then some p else none
  pure (ok (record { error = e; score = s; loc = loc; loclen = m }))

unfoldable pub response_body : ℕ → M Buf (Outcome Response)
response_body n = do
  Buf.need response_minsiz
  e ← Buf.get8
  s ← Buf.get8
  response_rest e s (n - response_minsiz)

unfoldable pub response_decode : Header → M Buf (Outcome Response)
response_decode h = if ltb h.len response_minsiz then pure (bad einval) else response_body h.len

unfoldable pub add_encode : Add → M Buf (Unit {0})
add_encode a = do
  pkt_init
  Buf.put8 a.type
  Buf.put64 a.time
  Buf.put64 a.val
  Buf.put a.loc a.loclen
  header_encode type_add

-- Unlike the other decoders, this one drops the whole body by its length.
unfoldable pub add_rest : ℕ → ℕ → ℕ → ℕ → ℕ → M Buf (Outcome Add)
add_rest n t w v m = do
  p ← gets (current m)
  Buf.trim_head n
  pure (ok (record { type = t; time = w; val = v; loc = p; loclen = m }))

unfoldable pub add_body : ℕ → M Buf (Outcome Add)
add_body n = do
  Buf.need add_minsiz
  t ← Buf.get8
  w ← Buf.get64
  v ← Buf.get64
  add_rest n t w v (n - add_minsiz)

unfoldable pub add_decode : Header → M Buf (Outcome Add)
add_decode h = if ltb h.len add_minsiz then pure (bad einval) else add_body h.len
