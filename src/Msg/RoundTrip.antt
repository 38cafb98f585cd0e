-- ===== src/Msg/RoundTrip.antt =====
-- Messages of lib/kcn_msg.c from an encoder to a decoder, through a stream that may cut them
-- anywhere and put other messages behind them.
use kcn.Common.{
  ℕ, ◌+◌, ◌*◌, ◌≤◌, ◌^◌, ◌%◌, ◌/◌, ◌≡◌, inl, inr, refl, ap, ◌∙◌, sym, List, [], ◌∷◌, ◌++◌, some,
  none, Option, length, drop, arith, ◌>>=◌, M, Outcome, ok, bad, eagain, length-append, le→ltb,
  pure, IsByte, IsU64,
}
use kcn.Buf.{Buf}
use kcn.Buf.View.{IsValid, held, ahead}
use kcn.Msg.Defs.{
  Header, Query, Response, Add, header_decode, query_encode, query_decode, query_check,
  response_encode, response_decode, add_encode, add_decode, type_query, type_response, type_add,
  maxbodysiz,
}
use kcn.Msg.Encode.{packet}
use kcn.Msg.Bodies.{
  query_bytes, response_bytes, add_bytes, loc_bytes, HasLength, Encodes, query_encode_lem,
  response_encode_lem, add_encode_lem,
}
use kcn.Msg.Receive.{parse_header, parse_rest, Decoded, header_decode-parse_header}
use kcn.Msg.Fields.{InRange, Leaves, loc_of, query_decode_lem, response_decode_lem, add_decode_lem}

-- A receiver: the header, and the body by the decoder for its type.
unfoldable pub deliver :
    {A : Type 0} → (Header → M Buf (Outcome A)) → Outcome Header → M Buf (Outcome A)
deliver decode (ok h) = decode h
deliver decode (bad e) = pure (bad e)

unfoldable pub receive : {A : Type 0} → (Header → M Buf (Outcome A)) → M Buf (Outcome A)
unfolding deliver
receive decode = header_decode >>= deliver decode

-- A whole message is accepted, whatever follows it.
parse_header-packet :
    (type : ℕ) (body r : List ℕ)
    → length body ≤ maxbodysiz
    → parse_header (packet type body ++ r)
      ≡ ok (record { ver = 1; type = type % 256; len = length body })
unfolding parse_header parse_rest
parse_header-packet type body r h =
    let n : length body / 2 ^ 8 % 256 * 2 ^ 8 + length body % 256 ≡ length body = omega arith in
    rw (
      n,
      le→ltb maxbodysiz (length body) h,
      length-append body r,
      le→ltb (length body + length r) (length body) (omega arith),
    )

-- The beginning of a message, short of its end, is never taken for a message.
parse_header_prefix :
    (type : ℕ) (body front : List ℕ) (x : ℕ) (back : List ℕ)
    → length body ≤ maxbodysiz
    → front ++ (x ∷ back) ≡ packet type body
    → parse_header front ≡ bad eagain
unfolding parse_header parse_rest
parse_header_prefix type body [] x back h e = refl
parse_header_prefix type body (_ ∷ []) x back h e = refl
parse_header_prefix type body (_ ∷ _ ∷ []) x back h e = refl
parse_header_prefix type body (_ ∷ _ ∷ _ ∷ []) x back h e = refl
parse_header_prefix type body (p ∷ t ∷ y ∷ z ∷ r) x back h e =
    let l = ap (λ (m : List ℕ). length m) e in ground (arith, length-append r (x ∷ back))

-- A valid buffer whose cursor is at the start of its data and that holds only the beginning of a
-- message, cut anywhere, makes the decoder of headers wait: it answers EAGAIN and the buffer is as it
-- was.
pub header_decode_prefix :
    (type : ℕ) (body : List ℕ) (x : ℕ) (back : List ℕ) {c : Buf}
    → IsValid c
    → c.cp ≡ c.sp
    → length body ≤ maxbodysiz
    → ahead c ++ (x ∷ back) ≡ packet type body
    → header_decode c ≡ some (bad eagain, c)
header_decode_prefix type body x back {c} v s h e =
    let (c', d, w, q) = header_decode-parse_header v s in
    let p = parse_header_prefix type body (ahead c) x back h e in
    let q' : Decoded (bad eagain) c c' = rw p at q in
    elim q' [ inl same ↦ d ∙ rw (p, same) | inr (other, _) ↦ absurd (other refl) ]

-- The header of a whole message is taken off.
pub header_decode-packet :
    (type : ℕ) (body r : List ℕ) {c : Buf}
    → IsValid c
    → c.cp ≡ c.sp
    → length body ≤ maxbodysiz
    → ahead c ≡ packet type body ++ r
    → (c' : Buf) × (header_decode c
        ≡ some (ok (record { ver = 1; type = type % 256; len = length body }), c'))
      × IsValid c'
      × (c'.cp ≡ c'.sp)
      × (ahead c' ≡ body ++ r)
header_decode-packet type body r {c} v s h e =
    let (c', d, w, q) = header_decode-parse_header v s in
    let p = ap parse_header e ∙ parse_header-packet type body r h in
    let (a, z) = rw p at q in
    (c', d ∙ ap (λ o. some (o, c')) p, w, sym z, a ∙ ap (λ (l : List ℕ). drop 4 l) e)

module _ {A : Type 0} (decode : Header → M Buf (Outcome A)) (type : ℕ) (body r : List ℕ)
    (o : Outcome A) where
  pub receive_lem :
      {c : Buf}
      → IsValid c
      → c.cp ≡ c.sp
      → length body ≤ maxbodysiz
      → ahead c ≡ packet type body ++ r
      → ((c' : Buf)
          → IsValid c'
          → c'.cp ≡ c'.sp
          → ahead c' ≡ body ++ r
          → Leaves (decode (record { ver = 1; type = type % 256; len = length body })) o r c')
      → Leaves (receive decode) o r c
  unfolding receive
  receive_lem {c} v s h e rest =
      let (c', d, w, z, a) = header_decode-packet type body r v s h e in
      let (c'', f, u, a', z') = rest c' w z a in (c'', rw (d, ◌>>=◌) f, u, a', z')

-- The bytes that an encoder leaves to be sent, none where it aborts.
abbrev pub output : Option (Unit {0} × Buf) → List ℕ
output none = []
output (some (u, b)) = held b

-- What an encoder leaves is its message.
encoded :
    (m : M Buf (Unit {0})) (type : ℕ) (body : List ℕ) {b : Buf}
    → Encodes m type body b
    → output (m b) ≡ packet type body
encoded m type body {b} (b', e, v, h, z) = rw e h

-- A query whose fields are in range, encoded into a valid buffer of 32 bytes at least, comes out of the
-- decoders of headers and of queries, in a valid buffer whose cursor is at the start of its data,
-- with any bytes behind it: the answer is the query, or EINVAL where its type of locator is neither of
-- the two, and the bytes behind it stay ahead.
pub query_round_trip :
    (q : Query) (r : List ℕ) {b c : Buf}
    → InRange q
    → IsValid b
    → 32 ≤ b.size
    → IsValid c
    → c.cp ≡ c.sp
    → ahead c ≡ output (query_encode q b) ++ r
    → Leaves (receive query_decode) (query_check q) r c
query_round_trip q r f v room w s e =
    let h = encoded (query_encode q) type_query (query_bytes q) (query_encode_lem q v room) in
    receive_lem query_decode type_query (query_bytes q) r (query_check q) w s (omega arith)
      (e ∙ ap (λ (l : List ℕ). l ++ r) h) (λ c' w' s' e'. query_decode_lem q type_query r w' f e')

-- A response whose error and score are bytes and whose locator has the length that it says, and is no
-- longer than the limit of a message and the block of the valid buffer allow, comes out of the decoders
-- of headers and of responses, and the bytes behind it stay ahead: an empty locator comes out as the
-- null pointer, any other as it was sent.
pub response_round_trip :
    (m : Response) (r : List ℕ) {b c : Buf}
    → IsByte m.error
    → IsByte m.score
    → HasLength m
    → 2 + m.loclen ≤ maxbodysiz
    → IsValid b
    → 6 + m.loclen ≤ b.size
    → IsValid c
    → c.cp ≡ c.sp
    → ahead c ≡ output (response_encode m b) ++ r
    → Leaves (receive response_decode) (ok (record m { loc = loc_of (loc_bytes m.loc) })) r c
response_round_trip m r {b} he hs hl small v room w s e =
    let p = loc_bytes m.loc in
    let x : m.error % 256 ≡ m.error = omega arith in
    let y : m.score % 256 ≡ m.score = omega arith in
    let h =
      encoded (response_encode m) type_response (response_bytes m)
        (response_encode_lem m v hl (omega arith)) in
    let n : 2 + length p ≡ length (response_bytes m) = omega arith in
    let o : Outcome Response =
      ok (record { error = m.error; score = m.score; loc = loc_of p; loclen = length p }) in
    simp hl (
      receive_lem response_decode type_response (response_bytes m) r o w s (omega arith)
        (e ∙ ap (λ (l : List ℕ). l ++ r) h)
        (λ c' w' s' e'.
          rw (x, y, n) at (response_decode_lem (m.error % 256) (m.score % 256) 2 p r w' e')))

-- An addition whose fields are in range and whose locator has the length that it says, and is no longer
-- than the limit of a message and the block of the valid buffer allow, comes out of the decoders of
-- headers and of additions as it is, and the bytes behind it stay ahead.
pub add_round_trip :
    (a : Add) (r : List ℕ) {b c : Buf}
    → IsByte a.type
    → IsU64 a.time
    → IsU64 a.val
    → a.loclen ≡ length a.loc
    → 17 + a.loclen ≤ maxbodysiz
    → IsValid b
    → 21 + a.loclen ≤ b.size
    → IsValid c
    → c.cp ≡ c.sp
    → ahead c ≡ output (add_encode a b) ++ r
    → Leaves (receive add_decode) (ok a) r c
add_round_trip a r {b} ht hw hv hl small v room w s e =
    let p = a.loc in
    let x : a.type % 256 ≡ a.type = omega arith in
    let h = encoded (add_encode a) type_add (add_bytes a) (add_encode_lem a v hl (omega arith)) in
    let n : 17 + length p ≡ length (add_bytes a) = omega arith in
    let o : ℕ → Outcome Add =
      λ k. ok (record { type = a.type; time = a.time; val = a.val; loc = p; loclen = k }) in
    let same : o (length p) ≡ ok a = ap o (sym hl) in
    rw same at (
      receive_lem add_decode type_add (add_bytes a) r (o (length p)) w s (omega arith)
        (e ∙ ap (λ (l : List ℕ). l ++ r) h)
        (λ c' w' s' e'.
          rw (x, n) at (add_decode_lem (a.type % 256) a.time a.val 3 p r w' s' hw hv e')))
