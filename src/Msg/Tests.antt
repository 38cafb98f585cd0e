-- ===== src/Msg/Tests.antt =====
-- Messages of lib/kcn_msg.c in concrete buffers, and the theorems at concrete inputs.
use kcn.Common.{ℕ, ◌≡◌, refl, List, [], ◌∷◌, ◌++◌, some, arith, ok, bad, eagain, replicate, splice}
use kcn.Buf
use kcn.Buf.{Buf}
use kcn.Buf.View.{IsValid, ahead}
use kcn.Msg.Defs.{
  Query, Response, Add, pkt_init, header_encode, header_decode, query_encode, query_decode,
  query_check, response_encode, response_loc, response_decode, add_encode, add_decode,
}
use kcn.Msg.Receive.{parse_header, Decoded, header_decode-parse_header}
use kcn.Msg.Fields.{InRange, Leaves}
use kcn.Msg.RoundTrip.{
  receive, header_decode_prefix, query_round_trip, response_round_trip, add_round_trip,
}

abbrev blank : Buf
blank = record { size = 40; sp = 9; ep = 9; bytes = replicate 40 0; cp = 9 }

blank-IsValid : IsValid blank
blank-IsValid = omega arith

-- A buffer of 40 bytes that holds `xs` of `n` bytes, with the cursor at `c`.
abbrev holding : ℕ → ℕ → List ℕ → Buf
holding c n xs = record { size = 40; sp = 0; ep = n; bytes = splice (replicate 40 0) 0 xs; cp = c }

abbrev query : Query
query = record {
  loctype = 1;
  maxcount = 5;
  eq = record { type = 4; op = 1; val = 100; start = 256; end = 2 };
}

query-InRange : InRange query
query-InRange = omega arith

abbrev query_message : List ℕ
query_message =
    1
    ∷ 1
    ∷ 0
    ∷ 28
    ∷ 1
    ∷ 5
    ∷ 4
    ∷ 1
    ∷ (0 ∷ 0 ∷ 0 ∷ 0 ∷ 0 ∷ 0 ∷ 0 ∷ 100 ∷ 0 ∷ 0 ∷ 0 ∷ 0 ∷ 0 ∷ 0 ∷ 1 ∷ 0 ∷ 0 ∷ 0 ∷ 0 ∷ 0 ∷ 0 ∷ 0 ∷ 0
        ∷ 2 ∷ [])

query_sent : query_encode query blank ≡ some (tt, holding 4 32 query_message)
unfolding query_encode pkt_init header_encode Buf.reset Buf.prepend Buf.put8 Buf.put16 Buf.put64
    Buf.append Buf.store_next Buf.len
query_sent = refl

abbrev query_arrived : Buf
query_arrived = holding 0 33 (query_message ++ (9 ∷ []))

query_arrived-IsValid : IsValid query_arrived
query_arrived-IsValid = omega arith

query_round_trip_example : Leaves (receive query_decode) (query_check query) (9 ∷ []) query_arrived
query_round_trip_example =
    query_round_trip query (9 ∷ []) query-InRange blank-IsValid (omega arith) query_arrived-IsValid
      refl (rw query_sent refl)

header_decode-parse_header_example :
    (b' : Buf) × (header_decode query_arrived ≡ some (parse_header (ahead query_arrived), b'))
    × IsValid b'
    × Decoded (parse_header (ahead query_arrived)) query_arrived b'
header_decode-parse_header_example = header_decode-parse_header query_arrived-IsValid refl

-- The first six bytes of a message.
abbrev cut : Buf
cut = holding 0 6 (1 ∷ 2 ∷ 0 ∷ 3 ∷ 0 ∷ 7 ∷ [])

cut-IsValid : IsValid cut
cut-IsValid = omega arith

header_decode_prefix_example : header_decode cut ≡ some (bad eagain, cut)
header_decode_prefix_example =
    header_decode_prefix 2 (0 ∷ 7 ∷ 65 ∷ []) 65 [] cut-IsValid refl (omega arith) refl

abbrev response : Response
response = record { error = 0; score = 7; loc = some (65 ∷ 66 ∷ []); loclen = 2 }

abbrev response_message : List ℕ
response_message = 1 ∷ 2 ∷ 0 ∷ 4 ∷ 0 ∷ 7 ∷ 65 ∷ 66 ∷ []

response_sent : response_encode response blank ≡ some (tt, holding 4 8 response_message)
unfolding response_encode response_loc pkt_init header_encode Buf.reset Buf.prepend Buf.put8
    Buf.put16 Buf.put Buf.store_block Buf.forward Buf.append Buf.store_next Buf.len
response_sent = refl

abbrev response_arrived : Buf
response_arrived = holding 0 8 response_message

response_arrived-IsValid : IsValid response_arrived
response_arrived-IsValid = omega arith

response_round_trip_example : Leaves (receive response_decode) (ok response) [] response_arrived
response_round_trip_example =
    response_round_trip response [] (omega arith) (omega arith) refl (omega arith) blank-IsValid
      (omega arith) response_arrived-IsValid refl (rw response_sent refl)

abbrev addition : Add
addition = record { type = 4; time = 258; val = 3; loc = 65 ∷ []; loclen = 1 }

abbrev add_message : List ℕ
add_message =
    1 ∷ 3 ∷ 0 ∷ 18 ∷ 4 ∷ 0 ∷ 0 ∷ 0 ∷ 0 ∷ 0 ∷ 0 ∷ 1 ∷ 2 ∷ 0 ∷ 0 ∷ 0 ∷ 0 ∷ 0 ∷ 0 ∷ 0 ∷ 3 ∷ 65 ∷ []

add_sent : add_encode addition blank ≡ some (tt, holding 4 22 add_message)
unfolding add_encode pkt_init header_encode Buf.reset Buf.prepend Buf.put8 Buf.put16 Buf.put64
    Buf.put Buf.store_block Buf.forward Buf.append Buf.store_next Buf.len
add_sent = refl

abbrev add_arrived : Buf
add_arrived = holding 0 23 (add_message ++ (9 ∷ []))

add_arrived-IsValid : IsValid add_arrived
add_arrived-IsValid = omega arith

add_round_trip_example : Leaves (receive add_decode) (ok addition) (9 ∷ []) add_arrived
add_round_trip_example =
    add_round_trip addition (9 ∷ []) (omega arith) (omega arith) (omega arith) refl (omega arith)
      blank-IsValid (omega arith) add_arrived-IsValid refl (rw add_sent refl)
