-- ===== src/Msg/Receive.antt =====
-- What kcn_msg_header_decode (lib/kcn_msg.c) makes of the bytes ahead of the cursor: a whole
-- message, the beginning of one, or one that is refused.
use kcn.Common.{
  ◌⊎◌, inl, inr, if◌then◌else◌, Bool-cases, ◌*◌, ℕ, ◌+◌, ◌-◌, ◌<◌, ◌^◌, ◌≡◌, ◌≢◌, refl, ap, ◌∙◌,
  sym, List, [], ◌∷◌, some, length, drop, arith, ◌>>◌, ◌>>=◌, Outcome, ok, bad, eagain, eopnotsupp,
  e2big, ltb, lt→ltb, le→ltb, not, ◌==◌, M,
}
use kcn.Buf
use kcn.Buf.{Buf}
use kcn.Buf.View.{IsValid, held, ahead, skip, trailingdata_lem, headingdata_lem}
use kcn.Buf.Load.{get8_lem, get16_bytes, ahead-skip, length-ahead}
use kcn.Buf.Cursor.{trimmed, trim_head-trimmed}
use kcn.Msg.Defs.{
  Header, consume, header_body, header_check, header_read, header_decode, version, maxbodysiz,
}

-- The buffer when the data before its cursor is dropped.
abbrev pub consumed : Buf → Buf
consumed b = record b { sp = b.cp }

pub consume_lem : {b : Buf} → IsValid b → (consume b ≡ some (tt, consumed b)) × IsValid (consumed b)
unfolding consume
consume_lem {b} v =
    let (t, w) = trim_head-trimmed (b.cp - b.sp) v (omega arith) in
    let e : trimmed (b.cp - b.sp) b ≡ consumed b = ground arith in
    (rw (headingdata_lem v, ◌>>=◌, t, e), omega arith)

header_read_lem :
    (v t x y : ℕ) (r : List ℕ) {b : Buf}
    → IsValid b
    → ahead b ≡ v ∷ t ∷ x ∷ y ∷ r
    → header_read b ≡ some (record { ver = v; type = t; len = x * 2 ^ 8 + y }, skip 4 b)
unfolding header_read
header_read_lem v t x y r {b} w e =
    let (w1, e1) = ahead-skip (v ∷ []) (t ∷ x ∷ y ∷ r) w e in
    let (w2, e2) = ahead-skip (t ∷ []) (x ∷ y ∷ r) w1 e1 in
    rw
      (get8_lem v (t ∷ x ∷ y ∷ r) w e, ◌>>=◌, get8_lem t (x ∷ y ∷ r) w1 e1, get16_bytes x y r w2 e2)
      (ground arith)

-- What the bytes ahead stand for, as a function of the list alone.
unfoldable pub parse_rest : Header → List ℕ → Outcome Header
parse_rest h r =
    if not (h.ver == version)
    then bad eopnotsupp
    else if ltb maxbodysiz h.len
    then bad e2big
    else if ltb (length r) h.len
    then bad eagain
    else ok h

unfoldable pub parse_header : List ℕ → Outcome Header
parse_header (v ∷ t ∷ x ∷ y ∷ r) = parse_rest (record { ver = v; type = t; len = x * 2 ^ 8 + y }) r
parse_header xs = bad eagain

-- The buffer after the decoder: a header that is accepted is dropped, with the cursor at the body;
-- where more bytes are wanted nothing has changed; a message that is refused is still held.
abbrev pub Decoded : Outcome Header → Buf → Buf → Type 0
Decoded (ok h) b b' = (ahead b' ≡ drop 4 (ahead b)) × (b'.sp ≡ b'.cp)
Decoded (bad e) b b' = (b' ≡ b) ⊎ ((e ≢ eagain) × (held b' ≡ held b))

module _ {b : Buf} (r : List ℕ) (v : IsValid b) (s : b.cp ≡ b.sp) (w : IsValid (skip 4 b))
    (d : drop 4 (ahead b) ≡ r) (e : ahead (skip 4 b) ≡ r) where
  -- What a part of the decoder answers and leaves, against the list.
  abbrev Answers : M Buf (Outcome Header) → Outcome Header → Type 0
  Answers m o = (b' : Buf) × (m (skip 4 b) ≡ some (o, b')) × IsValid b' × Decoded o b b'

  room : Buf.trailingdata (skip 4 b) ≡ some (length r, skip 4 b)
  room =
      let n : b.ep - (b.cp + 4) ≡ length r =
        sym (length-ahead w) ∙ ap (λ (l : List ℕ). length l) e in
      rw (trailingdata_lem w, n)

  header_body_lem :
      (h : Header) → Answers (header_body h) (if ltb (length r) h.len then bad eagain else ok h)
  unfolding header_body Buf.start
  header_body_lem h = elim (Bool-cases (ltb (length r) h.len)) [
    | inl short ↦ (b, rw (room, ◌>>=◌, short) (ground arith), v, rw short (inl refl))
    | inr whole ↦
        let (c, u) = consume_lem w in
        (consumed (skip 4 b), rw (room, ◌>>=◌, whole, c, ◌>>◌), u, rw whole (e ∙ sym d, refl))
  ]

  -- The checks on a header that has been read, in the buffer behind it.
  header_check_lem : (h : Header) → Answers (header_check h) (parse_rest h r)
  unfolding header_check parse_rest
  header_check_lem h = elim (Bool-cases (h.ver == version)) [
    | inr other ↦ (skip 4 b, rw other, w, rw other (inr (omega arith, refl)))
    | inl same ↦ elim (Bool-cases (ltb maxbodysiz h.len)) [
      | inl long ↦ (skip 4 b, rw (same, long), w, rw (same, long) (inr (omega arith, refl)))
      | inr fits ↦ rw (same, fits) (header_body_lem h)
    ]
  ]

few :
    (xs : List ℕ) {b : Buf}
    → IsValid b
    → ahead b ≡ xs
    → length xs < 4
    → header_decode b ≡ some (bad eagain, b)
unfolding header_decode
few xs {b} v e h =
    let n : b.ep - b.cp ≡ length xs = sym (length-ahead v) ∙ ap (λ (l : List ℕ). length l) e in
    rw (trailingdata_lem v, ◌>>=◌, n, lt→ltb (length xs) 4 h)

header_decode_at :
    (xs : List ℕ) {b : Buf}
    → IsValid b
    → b.cp ≡ b.sp
    → ahead b ≡ xs
    → (b' : Buf) × (header_decode b ≡ some (parse_header xs, b'))
      × IsValid b'
      × Decoded (parse_header xs) b b'
unfolding parse_header
header_decode_at [] {b} v s e = (b, few _ v e (omega arith), v, inl refl)
header_decode_at (_ ∷ []) {b} v s e = (b, few _ v e (omega arith), v, inl refl)
header_decode_at (_ ∷ _ ∷ []) {b} v s e = (b, few _ v e (omega arith), v, inl refl)
header_decode_at (_ ∷ _ ∷ _ ∷ []) {b} v s e = (b, few _ v e (omega arith), v, inl refl)
header_decode_at (p ∷ t ∷ x ∷ y ∷ r) {b} v s e =
    let (w, a) = ahead-skip (p ∷ t ∷ x ∷ y ∷ []) r v e in
    let n : b.ep - b.cp ≡ length r + 4 =
      sym (length-ahead v) ∙ ap (λ (l : List ℕ). length l) e ∙ omega arith in
    let h : Header = record { ver = p; type = t; len = x * 2 ^ 8 + y } in
    let (b', c, u, q) = header_check_lem r v s w (ap (λ (l : List ℕ). drop 4 l) e) a h in
    (
      b',
      unfold header_decode in
          rw (
            trailingdata_lem v,
            ◌>>=◌,
            n,
            le→ltb (length r + 4) 4 (omega arith),
            header_read_lem p t x y r v e,
            c,
          ),
      u,
      q,
    )

-- The decoder of headers, in a valid buffer whose cursor is at the start of the data, answers what
-- `parse_header` makes of the bytes ahead, whatever they are: it never aborts. A header that is
-- accepted is dropped; where more bytes are wanted the buffer is as it was; a message that is
-- refused is still held.
pub header_decode-parse_header :
    {b : Buf}
    → IsValid b
    → b.cp ≡ b.sp
    → (b' : Buf) × (header_decode b ≡ some (parse_header (ahead b), b'))
      × IsValid b'
      × Decoded (parse_header (ahead b)) b b'
header_decode-parse_header {b} v s = header_decode_at (ahead b) v s refl
