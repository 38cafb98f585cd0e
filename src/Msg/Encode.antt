-- ===== src/Msg/Encode.antt =====
-- What the encoders of lib/kcn_msg.c leave in the buffer, as a list of bytes.
use kcn.Common.{
  ℕ, ◌+◌, ◌-◌, ◌≤◌, ◌%◌, ◌≡◌, refl, ap, ◌∙◌, sym, List, [], ◌∷◌, ◌++◌, some, length, take, drop,
  splice, arith, append_assoc, append-nil, splice-splice, splice-front, take-append_add,
  length-append, ◌>>◌, ◌>>=◌, M, length-splice, sub_size,
}
use kcn.Buf.{Buf}
use kcn.Buf
use kcn.Buf.View.{IsValid, held, stored, len_lem}
use kcn.Buf.Store.{
  Write, perform, written, perform-stored, bytes16, put8_lem, put16_lem, stored-IsValid,
  held-stored,
}
use kcn.Buf.Cursor.{reset_lem, prepend_lem, length-held}
use kcn.Msg.Defs.{pkt_init, header_encode}

-- A message: a header of four bytes, with the length of the body, and the body.
abbrev pub packet : ℕ → List ℕ → List ℕ
packet type body = 1 ∷ (type % 256) ∷ bytes16 (length body) ++ body

-- A body that grows at the end of the data, behind room for the header.
abbrev Grows : List ℕ → Buf → Type 0
Grows body b = IsValid b × (b.sp ≡ 4) × (b.cp ≡ b.ep) × (held b ≡ body)

abbrev pub all_written : List Write → List ℕ
all_written [] = []
all_written (w ∷ ws) = written w ++ all_written ws

abbrev pub then_all : List Write → M Buf (Unit {0}) → M Buf (Unit {0})
then_all [] k = k
then_all (w ∷ ws) k = perform w >> then_all ws k

Grows-stored :
    (w : Write) (body : List ℕ) {b : Buf}
    → Grows body b
    → 4 + length (body ++ written w) ≤ b.size
    → (perform w b ≡ some (tt, stored (written w) b))
      × Grows (body ++ written w) (stored (written w) b)
Grows-stored w body {b} (v, s, c, h) room =
    let n = length-held v in
    let l : length body ≡ b.ep - b.sp = ap (λ (r : List ℕ). length r) (sym h) ∙ n in
    let fits : b.ep + length (written w) ≤ b.size = omega (arith, length-append body (written w)) in
    let (p, v') = perform-stored w v (omega arith) in
    (p, (v', s, omega arith, held-stored (written w) v c fits ∙ ap (λ r. r ++ written w) h))

-- Writes one after the other, and what the rest of the encoder then finds.
after : List Write → Buf → Buf
after [] b = b
after (w ∷ ws) b = after ws (stored (written w) b)

then_all-after :
    (ws : List Write) (body : List ℕ) (k : M Buf (Unit {0})) {b : Buf}
    → Grows body b
    → 4 + length (body ++ all_written ws) ≤ b.size
    → (then_all ws k b ≡ k (after ws b))
      × Grows (body ++ all_written ws) (after ws b)
      × ((after ws b).size ≡ b.size)
unfolding after
then_all-after [] body k g room = (refl, rw append-nil g, refl)
then_all-after (w ∷ ws) body k {b} g room =
    let room' : 4 + length ((body ++ written w) ++ all_written ws) ≤ b.size =
      rw append_assoc room in
    let (p, g') =
      Grows-stored w body g
        (omega (arith, room', length-append (body ++ written w) (all_written ws))) in
    let (q, g'', z) = then_all-after ws (body ++ written w) k g' room' in
    (rw (p, ◌>>◌) q, rw append_assoc at g'', z)

header_bytes : ℕ → ℕ → List ℕ
header_bytes type n = 1 ∷ (type % 256) ∷ bytes16 n

-- The header is written over the four bytes before the body.
headed : ℕ → Buf → Buf
unfolding header_bytes
headed type b = record b { sp = 0; cp = 4; bytes = splice b.bytes 0 (header_bytes type (b.ep - 4)) }

-- The four writes of the header, from the front of the block.
header_writes :
    (type n : ℕ) {b : Buf}
    → IsValid b
    → b.cp ≡ 0
    → 4 ≤ b.ep
    → stored (bytes16 n) (stored (type % 256 ∷ []) (stored (1 ∷ []) b))
      ≡ record b { cp = 4; bytes = splice b.bytes 0 (header_bytes type n) }
unfolding header_bytes
header_writes type n {b} v c e = ground (
  arith,
  splice-splice b.bytes 0 (1 ∷ []) (type % 256 ∷ []),
  splice-splice b.bytes 0 (1 ∷ type % 256 ∷ []) (bytes16 n),
)

header_encode-headed :
    (type : ℕ) {b : Buf} → IsValid b → b.sp ≡ 4 → header_encode type b ≡ some (tt, headed type b)
unfolding header_encode headed
header_encode-headed type {b} v s =
    let b0 : Buf = record b { sp = b.sp - 4; cp = b.sp - 4 } in
    let v0 : IsValid b0 = omega arith in
    let b1 = stored (1 ∷ []) b0 in
    let v1 : IsValid b1 = stored-IsValid (1 ∷ []) v0 (omega arith) in
    let b2 = stored (type % 256 ∷ []) b1 in
    let v2 : IsValid b2 = stored-IsValid (type % 256 ∷ []) v1 (omega arith) in
    let n : sub_size (Buf.len b2) 4 ≡ b.ep - 4 = rw (len_lem v2) (omega arith) in
    rw
      (
        prepend_lem 4 v (omega arith),
        ◌>>◌,
        put8_lem 1 v0 (omega arith),
        put8_lem type v1 (omega arith),
        ◌>>=◌,
        n,
        put16_lem (b.ep - 4) v2 (omega arith),
        header_writes type (b.ep - 4) v0 (omega arith) (omega arith),
      )
      (ground arith)

headed-IsValid : (type : ℕ) {b : Buf} → IsValid b → b.sp ≡ 4 → IsValid (headed type b)
unfolding headed
headed-IsValid type {b} v s = omega (arith, length-splice b.bytes 0 (header_bytes type (b.ep - 4)))

held-headed :
    (type : ℕ) (body : List ℕ) {b : Buf} → Grows body b → held (headed type b) ≡ packet type body
unfolding headed header_bytes
held-headed type body {b} (v, s, c, h) =
    let hdr = header_bytes type (b.ep - 4) in
    let n : length body ≡ b.ep - 4 =
      rw s at (ap (λ (r : List ℕ). length r) (sym h) ∙ length-held v) in
    let m : b.ep - 0 ≡ length hdr + (b.ep - 4) = omega arith in
    let t : take (b.ep - 4) (drop 4 b.bytes) ≡ body = rw s at h in
    rw (splice-front hdr b.bytes (omega arith), m, take-append_add hdr, t, n)

-- Every encoder has this shape: room for a header, the fields, and the header before them.
pub encode_packet :
    (ws : List Write) (type : ℕ) {b : Buf}
    → IsValid b
    → 4 + length (all_written ws) ≤ b.size
    → (b' : Buf) × ((pkt_init >> then_all ws (header_encode type)) b ≡ some (tt, b'))
      × IsValid b'
      × (held b' ≡ packet type (all_written ws))
      × (b'.size ≡ b.size)
unfolding pkt_init headed
encode_packet ws type {b} v room =
    let (r, v0) = reset_lem 4 v (omega arith) in
    let b0 : Buf = record b { cp = 4; sp = 4; ep = 4 } in
    let g : Grows [] b0 = (v0, refl, refl, refl) in
    let (t, g', z) = then_all-after ws [] (header_encode type) g room in
    let b1 = after ws b0 in
    (
      headed type b1,
      rw (r, ◌>>◌, t) (header_encode-headed type g'.0 g'.1),
      headed-IsValid type g'.0 g'.1,
      held-headed type (all_written ws) g',
      z,
    )
