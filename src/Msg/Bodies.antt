-- ===== src/Msg/Bodies.antt =====
-- The messages of lib/kcn_msg.c as byte strings, and the encoders against them.
use kcn.Common.{
  ℕ, ◌+◌, ◌≤◌, ◌%◌, ◌≡◌, List, [], ◌∷◌, ◌++◌, some, none, Option, length, arith, append-nil, ◌>>◌,
  M,
}
use kcn.Buf.{Buf}
use kcn.Buf.View.{IsValid, held}
use kcn.Buf.Store.{Write, byte, long, block, perform, written, bytes64}
use kcn.Msg.Defs.{
  Query, Response, Add, pkt_init, header_encode, query_encode, response_encode, response_loc,
  add_encode, type_query, type_response, type_add,
}
use kcn.Msg.Encode.{packet, encode_packet}

abbrev pub query_bytes : Query → List ℕ
query_bytes q =
    (q.loctype % 256)
    ∷ (q.maxcount % 256)
    ∷ (q.eq.type % 256)
    ∷ (q.eq.op % 256)
    ∷ (bytes64 q.eq.val ++ (bytes64 q.eq.start ++ bytes64 q.eq.end))

abbrev pub loc_bytes : Option (List ℕ) → List ℕ
loc_bytes none = []
loc_bytes (some p) = p

abbrev pub response_bytes : Response → List ℕ
response_bytes r = (r.error % 256) ∷ (r.score % 256) ∷ loc_bytes r.loc

abbrev pub add_bytes : Add → List ℕ
add_bytes a = (a.type % 256) ∷ (bytes64 a.time ++ (bytes64 a.val ++ a.loc))

-- The buffer holds exactly one message, in a block of the same size.
abbrev pub Encodes : M Buf (Unit {0}) → ℕ → List ℕ → Buf → Type 0
Encodes m type body b =
    (b' : Buf) × (m b ≡ some (tt, b'))
    × IsValid b'
    × (held b' ≡ packet type body)
    × (b'.size ≡ b.size)

query_writes : Query → List Write
query_writes q =
    byte q.loctype
    ∷ byte q.maxcount
    ∷ byte q.eq.type
    ∷ byte q.eq.op
    ∷ long q.eq.val
    ∷ long q.eq.start
    ∷ long q.eq.end
    ∷ []

-- The encoder of queries writes the header and the fields, whatever the buffer held before.
pub query_encode_lem :
    (q : Query) {b : Buf}
    → IsValid b
    → 32 ≤ b.size
    → Encodes (query_encode q) type_query (query_bytes q) b
unfolding query_encode query_writes perform written
query_encode_lem q v room = encode_packet (query_writes q) type_query v room

-- A response whose length is that of its locator.
abbrev pub HasLength : Response → Type 0
HasLength r = r.loclen ≡ length (loc_bytes r.loc)

response_steps : ℕ → ℕ → Option (List ℕ) → ℕ → M Buf (Unit {0})
response_steps e s loc n =
    pkt_init
    >> (kcn.Buf.put8 e >> (kcn.Buf.put8 s >> (response_loc loc n >> header_encode type_response)))

response_steps_lem :
    (e s : ℕ) (loc : Option (List ℕ)) {b : Buf}
    → IsValid b
    → 6 + length (loc_bytes loc) ≤ b.size
    → Encodes
        (response_steps e s loc (length (loc_bytes loc)))
        type_response
        ((e % 256) ∷ (s % 256) ∷ loc_bytes loc)
        b
unfolding response_steps perform written response_loc
response_steps_lem e s none v room =
    encode_packet (byte e ∷ byte s ∷ []) type_response v (omega arith)
response_steps_lem e s (some p) v room =
    rw append-nil at
      (encode_packet (byte e ∷ byte s ∷ block p ∷ []) type_response v (rw append-nil (omega arith)))

-- The encoder of responses, with a locator or without one.
pub response_encode_lem :
    (r : Response) {b : Buf}
    → IsValid b
    → HasLength r
    → 6 + length (loc_bytes r.loc) ≤ b.size
    → Encodes (response_encode r) type_response (response_bytes r) b
unfolding response_encode response_steps
response_encode_lem r v l room = simp l (response_steps_lem r.error r.score r.loc v room)

-- The encoder of additions.
pub add_encode_lem :
    (a : Add) {b : Buf}
    → IsValid b
    → a.loclen ≡ length a.loc
    → 21 + length a.loc ≤ b.size
    → Encodes (add_encode a) type_add (add_bytes a) b
unfolding add_encode perform written
add_encode_lem a v l room = simp l (
    rw append-nil at (
      encode_packet (byte a.type ∷ long a.time ∷ long a.val ∷ block a.loc ∷ []) type_add v
        (rw append-nil (omega arith))))
