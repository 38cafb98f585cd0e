-- ===== src/Msg/Fields.antt =====
-- The decoders of the message bodies of lib/kcn_msg.c on the bytes that the encoders write.
use kcn.Common.{
  ℕ, ◌+◌, ◌-◌, ◌≤◌, ◌≡◌, refl, ap, ◌∙◌, sym, List, [], ◌∷◌, ◌++◌, Option, some, none, length, take,
  drop, arith, take-take, take-append_left, ◌>>◌, ◌>>=◌, ok, length-append, ltb, le→ltb, M, IsByte,
  IsU64, if◌then◌else◌,
}
use kcn.Buf
use kcn.Buf.{Buf}
use kcn.Buf.View.{IsValid, ahead, skip}
use kcn.Buf.Load.{get8_lem, get64_lem, ahead-skip, length-ahead, need_lem}
use kcn.Buf.Store.{bytes64}
use kcn.Buf.Cursor.{trimmed, trim_head-trimmed, forward_lem}
use kcn.Msg.Defs.{
  Query, query_read, query_body, query_check, query_decode, response_rest, response_body,
  response_decode, add_rest, add_body, add_decode,
}
use kcn.Msg.Bodies.{query_bytes}
use kcn.Msg.Receive.{consumed, consume_lem}

-- The fields fit the bytes that carry them.
pub record InRange (q : Query) : Type 0 where
  pub loctype : IsByte q.loctype
  pub maxcount : IsByte q.maxcount
  pub type : IsByte q.eq.type
  pub op : IsByte q.eq.op
  pub val : IsU64 q.eq.val
  pub start : IsU64 q.eq.start
  pub end : IsU64 q.eq.end

-- A buffer behind a message: valid, with `r` ahead and nothing before the cursor.
abbrev pub Leaves : {A : Type 0} → M Buf A → A → List ℕ → Buf → Type 0
Leaves m a r b = (b' : Buf) × (m b ≡ some (a, b')) × IsValid b' × (ahead b' ≡ r) × (b'.sp ≡ b'.cp)

abbrev pub query_fields : Query → List ℕ
query_fields q =
    q.loctype
    ∷ q.maxcount
    ∷ q.eq.type
    ∷ q.eq.op
    ∷ (bytes64 q.eq.val ++ (bytes64 q.eq.start ++ bytes64 q.eq.end))

query_read_lem :
    (q : Query) (r : List ℕ) {b : Buf}
    → IsValid b
    → InRange q
    → ahead b ≡ query_fields q ++ r
    → query_read b ≡ some (q, skip 28 b)
unfolding query_read
query_read_lem q r {b} v f e =
    let r7 = r in
    let r6 = bytes64 q.eq.end ++ r7 in
    let r5 = bytes64 q.eq.start ++ r6 in
    let r4 = bytes64 q.eq.val ++ r5 in
    let r3 = q.eq.op ∷ r4 in
    let r2 = q.eq.type ∷ r3 in
    let r1 = q.maxcount ∷ r2 in
    let (v1, e1) = ahead-skip (q.loctype ∷ []) r1 v e in
    let (v2, e2) = ahead-skip (q.maxcount ∷ []) r2 v1 e1 in
    let (v3, e3) = ahead-skip (q.eq.type ∷ []) r3 v2 e2 in
    let (v4, e4) = ahead-skip (q.eq.op ∷ []) r4 v3 e3 in
    let (v5, e5) = ahead-skip (bytes64 q.eq.val) r5 v4 e4 in
    let (v6, e6) = ahead-skip (bytes64 q.eq.start) r6 v5 e5 in
    rw
      (
        get8_lem q.loctype r1 v e,
        ◌>>=◌,
        get8_lem q.maxcount r2 v1 e1,
        get8_lem q.eq.type r3 v2 e2,
        get8_lem q.eq.op r4 v3 e3,
        get64_lem q.eq.val r5 v4 f.val e4,
        get64_lem q.eq.start r6 v5 f.start e5,
        get64_lem q.eq.end r7 v6 f.end e6,
      )
      (ground arith)

pub query_bytes-fields : (q : Query) → InRange q → query_bytes q ≡ query_fields q
query_bytes-fields q f = ground arith

-- A whole body is ahead, so the assertion on its length holds.
need-ahead :
    (n : ℕ) (xs r : List ℕ) {b : Buf}
    → IsValid b
    → ahead b ≡ xs ++ r
    → n ≤ length xs
    → Buf.need n b ≡ some (tt, b)
need-ahead n xs r v e h = need_lem n v (rw (e, length-append) (omega arith))

pub query_decode_lem :
    (q : Query) (t : ℕ) (r : List ℕ) {b : Buf}
    → IsValid b
    → InRange q
    → ahead b ≡ query_bytes q ++ r
    → Leaves (query_decode (record { ver = 1; type = t; len = 28 })) (query_check q) r b
unfolding query_decode query_body
query_decode_lem q t r {b} v f e =
    let e' = e ∙ ap (λ (l : List ℕ). l ++ r) (query_bytes-fields q f) in
    let (w', a') = ahead-skip (query_fields q) r v e' in
    let (c, u) = consume_lem w' in
    (
      consumed (skip 28 b),
      rw (
        need-ahead 28 (query_bytes q) r v e (omega arith),
        ◌>>◌,
        query_read_lem q r v f e',
        ◌>>=◌,
        c,
      ),
      u,
      a',
      refl,
    )

-- What a pointer to the cursor leads to, where `p` is ahead.
current_lem :
    (p r : List ℕ) {b : Buf}
    → IsValid b
    → ahead b ≡ p ++ r
    → take (length p) (drop b.cp b.bytes) ≡ p
current_lem p r {b} v e =
    let n : length p ≤ b.ep - b.cp =
      omega (arith, length-ahead v, ap (λ (l : List ℕ). length l) e, length-append p r) in
    sym (take-take (length p) (b.ep - b.cp) (drop b.cp b.bytes) n) ∙ rw (e, take-append_left)

-- A locator as a decoder hands it on: an empty one is a null pointer.
abbrev pub loc_of : List ℕ → Option (List ℕ)
loc_of p = if ltb 0 (length p) then some p else none

response_rest_lem :
    (x y : ℕ) (p r : List ℕ) {b : Buf}
    → IsValid b
    → ahead b ≡ p ++ r
    → response_rest x y (length p) b
      ≡ some (
        ok (record { error = x; score = y; loc = loc_of p; loclen = length p }),
        consumed (skip (length p) b),
      )
unfolding response_rest
response_rest_lem x y p r {b} v e =
    let (w, a) = ahead-skip p r v e in
    let (c, u) = consume_lem w in
    rw (forward_lem (length p) v (omega (arith, w)), ◌>>◌, c, current_lem p r v e)

pub response_decode_lem :
    (x y t : ℕ) (p r : List ℕ) {b : Buf}
    → IsValid b
    → ahead b ≡ x ∷ y ∷ (p ++ r)
    → Leaves
        (response_decode (record { ver = 1; type = t; len = 2 + length p }))
        (ok (record { error = x; score = y; loc = loc_of p; loclen = length p }))
        r
        b
unfolding response_decode response_body
response_decode_lem x y t p r {b} v e =
    let (v1, e1) = ahead-skip (x ∷ []) (y ∷ (p ++ r)) v e in
    let (v2, e2) = ahead-skip (y ∷ []) (p ++ r) v1 e1 in
    let (w, a) = ahead-skip p r v2 e2 in
    let (c, u) = consume_lem w in
    let n : 2 + length p - 2 ≡ length p = omega arith in
    (
      consumed (skip (length p) (skip 1 (skip 1 b))),
      rw (
        le→ltb (2 + length p) 2 (omega arith),
        need-ahead 2 (x ∷ y ∷ p) r v e (omega arith),
        ◌>>◌,
        get8_lem x (y ∷ (p ++ r)) v e,
        ◌>>=◌,
        get8_lem y (p ++ r) v1 e1,
        n,
        response_rest_lem x y p r v2 e2,
      ),
      u,
      a,
      refl,
    )

add_rest_lem :
    (x w z n : ℕ) (p r : List ℕ) {b : Buf}
    → IsValid b
    → ahead b ≡ p ++ r
    → b.sp + n ≡ b.cp + length p
    → add_rest n x w z (length p) b
      ≡ some (
        ok (record { type = x; time = w; val = z; loc = p; loclen = length p }),
        consumed (skip (length p) b),
      )
unfolding add_rest
add_rest_lem x w z n p r {b} v e s =
    let (v', a) = ahead-skip p r v e in
    let (c, u) = trim_head-trimmed n v (omega (arith, v')) in
    let f : trimmed n b ≡ consumed (skip (length p) b) = ground arith in
    rw (c, ◌>>◌, current_lem p r v e, f)

pub add_decode_lem :
    (x w z t : ℕ) (p r : List ℕ) {b : Buf}
    → IsValid b
    → b.cp ≡ b.sp
    → IsU64 w
    → IsU64 z
    → ahead b ≡ x ∷ (bytes64 w ++ (bytes64 z ++ (p ++ r)))
    → Leaves
        (add_decode (record { ver = 1; type = t; len = 17 + length p }))
        (ok (record { type = x; time = w; val = z; loc = p; loclen = length p }))
        r
        b
unfolding add_decode add_body
add_decode_lem x w z t p r {b} v s hw hz e =
    let r2 = p ++ r in
    let r1 = bytes64 z ++ r2 in
    let (v1, e1) = ahead-skip (x ∷ []) (bytes64 w ++ r1) v e in
    let (v2, e2) = ahead-skip (bytes64 w) r1 v1 e1 in
    let (v3, e3) = ahead-skip (bytes64 z) r2 v2 e2 in
    let (v4, e4) = ahead-skip p r v3 e3 in
    let b3 = skip 8 (skip 8 (skip 1 b)) in
    let n : 17 + length p - 17 ≡ length p = omega arith in
    (
      consumed (skip (length p) b3),
      rw (
        le→ltb (17 + length p) 17 (omega arith),
        need-ahead 17 (x ∷ (bytes64 w ++ (bytes64 z ++ p))) r v e (omega arith),
        ◌>>◌,
        get8_lem x (bytes64 w ++ r1) v e,
        ◌>>=◌,
        get64_lem w r1 v1 hw e1,
        get64_lem z r2 v2 hz e2,
        n,
        add_rest_lem x w z (17 + length p) p r v3 e3 (omega arith),
      ),
      omega (arith, v4),
      e4,
      refl,
    )
