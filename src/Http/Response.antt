-- ===== src/Http/Response.antt =====
-- The body that kcn_http_response_get gives (lib/kcn_http.c).
use kcn.Common.{
  ℕ, ◌+◌, ◌*◌, ◌%◌, ◌^◌, ◌<◌, ◌≤◌, ◌≡◌, refl, sym, ap, ◌∙◌, List, [], ◌∷◌, ◌++◌, length, take,
  length-append, if◌then◌else◌, Option, some, none, Bool, true, false, ltb, ◌⊎◌, inl, inr,
  Bool-cases, arith, ok, bad, enomem, etimedout, enetdown, take-all, append-nil, append_assoc,
}
use kcn.Httpbuf
use kcn.Httpbuf.{Httpbuf, content, append}
use kcn.Httpbuf.Append.{IsExact, append-content}
use kcn.Http.Defs.{
  Curl, CurlCode, Chunk, Callback, curle_ok, curle_out_of_memory, curle_operation_timeouted,
  curle_other, curl_code2errno, curl_callback, ended, performed, with_handle, response_get,
}

unfoldable pub bytes : List Chunk → List ℕ
bytes [] = []
bytes (c ∷ cs) = c.bytes ++ bytes cs

-- Chunks that are handed to a callback one after the other, each of which it has taken whole.
pub data Delivered (cb : Callback) : List Chunk → Httpbuf → Httpbuf → Type 0 where
  finished : {h : Httpbuf} → Delivered cb [] h h
  taken :
      {c : Chunk} {cs : List Chunk} {h h' : Httpbuf}
      → length c.bytes ≡ c.size * c.number
      → length c.bytes < 2 ^ 64
      → (cb c h).0 ≡ length c.bytes
      → Delivered cb cs (cb c h).1 h'
      → Delivered cb (c ∷ cs) h h'

-- What libcurl documents: where curl_easy_perform() answers CURLE_OK it has handed the whole body to the
-- callback, which has taken all of it.
pub record IsCurl (curl : Curl) (body : List ℕ → List ℕ) : Type 0 where
  pub delivers :
      (uri : List ℕ) (cb : Callback) (h : Httpbuf)
      → (curl.perform uri cb h).0 ≡ curle_ok
      → (cs : List Chunk) × Delivered cb cs h (curl.perform uri cb h).1 × (bytes cs ≡ body uri)

empty_of_length : (l : List ℕ) → 0 ≡ length l → l ≡ []
empty_of_length [] h = refl
empty_of_length (x ∷ l) h = absurd (omega arith)

-- What the callback answers, and the buffer behind it.
abbrev answered : List ℕ → Bool → Httpbuf → ℕ × Httpbuf
answered p b h = if b then (length p, h) else (0, h)

settled :
    (p : List ℕ) (b : Bool) (h h' : Httpbuf) {R : Type 0}
    → IsExact h'
    → ((b ≡ true) × (content h'.ptr ≡ content h.ptr ++ p)) ⊎ ((b ≡ false) × (h' ≡ h) × R)
    → (answered p b h').0 ≡ length p
    → IsExact (answered p b h').1 × (content (answered p b h').1.ptr ≡ content h.ptr ++ p)
settled p true h h' y (inl (t, e)) z = (y, e)
settled p true h h' y (inr (t, e, r)) z = absurd (cc)
settled p false h h' y (inl (t, e)) z = absurd (cc)
settled p false h h' y (inr (t, e, r)) z =
    (y, rw (e, empty_of_length p z) (sym (append-nil (content h.ptr))))

-- kcn_httpbuf_new
abbrev empty : Httpbuf
empty = record { ptr = none; size = 0 }

empty-IsExact : IsExact empty
unfolding content
empty-IsExact = record { exact = refl; fits = omega arith }

-- A chunk that the callback has taken whole stands behind what was there.
curl_callback_lem :
    (alloc : ℕ → Bool) (c : Chunk) (h : Httpbuf)
    → IsExact h
    → length c.bytes ≡ c.size * c.number
    → length c.bytes < 2 ^ 64
    → (curl_callback alloc c h).0 ≡ length c.bytes
    → IsExact (curl_callback alloc c h).1
      × (content (curl_callback alloc c h).1.ptr ≡ content h.ptr ++ c.bytes)
unfolding curl_callback
curl_callback_lem alloc c h x n k e =
    let t : c.size * c.number % 2 ^ 64 ≡ length c.bytes = omega arith in
    let all : take (length c.bytes) c.bytes ≡ c.bytes =
      take-all (length c.bytes) c.bytes (omega arith) in
    let nothing = λ (z : 0 ≡ length c.bytes).
      sym (ap (λ l. content h.ptr ++ l) (empty_of_length c.bytes z) ∙ append-nil (content h.ptr)) in
    elim (Bool-cases (ltb (length c.bytes) c.size)) [
      | inl a ↦ let z : 0 ≡ length c.bytes = rw (t, a) at e in rw (t, a) (x, nothing z)
      | inr a ↦
          let (b, h', f, y, o) = append-content alloc c.bytes x k in
          let z = rw (t, a, all, f) at e in rw (t, a, all, f) (settled c.bytes b h h' y o z)
    ]

delivered_lem :
    (alloc : ℕ → Bool) {cs : List Chunk} {h h' : Httpbuf}
    → Delivered (curl_callback alloc) cs h h'
    → IsExact h
    → IsExact h' × (content h'.ptr ≡ content h.ptr ++ bytes cs)
unfolding bytes
delivered_lem alloc {h} finished x = (x, sym (append-nil (content h.ptr)))
delivered_lem alloc {h} (taken {c} {cs} n k e d) x =
    let (y, p) = curl_callback_lem alloc c h x n k e in
    let (z, q) = delivered_lem alloc d y in
    (z, q ∙ rw p (append_assoc (content h.ptr) c.bytes (bytes cs)))

-- What curl_easy_perform() answers when the source calls it.
abbrev pub answer : Curl → (ℕ → Bool) → List ℕ → CurlCode
answer curl alloc uri = (curl.perform uri (curl_callback alloc) (record { ptr = none; size = 0 })).0

-- The errno of a code that is not CURLE_OK.
abbrev pub HasErrno : CurlCode → ℕ → Type 0
HasErrno curle_ok x = ⊥
HasErrno curle_out_of_memory x = x ≡ enomem
HasErrno curle_operation_timeouted x = x ≡ etimedout
HasErrno curle_other x = x ≡ enetdown

-- Why a response is not given, by its errno.
abbrev pub NotGiven : Curl → (List ℕ → List ℕ) → Bool → (ℕ → Bool) → ℕ → List ℕ → ℕ → Type 0
NotGiven curl body memory alloc e uri x =
    ((x ≡ enomem) × (memory ≡ false))
    ⊎ ((x ≡ e) × (curl.handle ≡ false))
    ⊎ ((curl.handle ≡ true) × HasErrno (answer curl alloc uri) x)
    ⊎ ((x ≡ e)
        × (answer curl alloc uri ≡ curle_ok)
        × ((2 ^ 64 ≤ length (body uri) + 1) ⊎ ((n : ℕ) × (alloc n ≡ false))))

ended_lem :
    (e : ℕ) (o : Option (List ℕ)) (n : ℕ) (l : List ℕ)
    → content o ≡ l ++ (0 ∷ [])
    → ended e (true, record { ptr = o; size = n }) ≡ ok (l ++ (0 ∷ []))
unfolding ended content Httpbuf.get
ended_lem e none n l h =
    absurd (omega (arith, ap (λ (r : List ℕ). length r) h, length-append l (0 ∷ [])))
ended_lem e (some p) n l h = ap ok h

refusal :
    (alloc : ℕ → Bool) (body : List ℕ) {h : Httpbuf}
    → length (content h.ptr) ≡ length body
    → IsExact h
    → (2 ^ 64 ≤ h.size + 1) ⊎ ((n : ℕ) × (alloc n ≡ false))
    → (2 ^ 64 ≤ length body + 1) ⊎ ((n : ℕ) × (alloc n ≡ false))
refusal alloc body l x (inl m) = inl (omega (arith, x.exact))
refusal alloc body l x (inr m) = inr m

performed_lem :
    (curl : Curl) (body : List ℕ → List ℕ) (memory : Bool) (alloc : ℕ → Bool) (e : ℕ) (uri : List ℕ)
    (code : CurlCode) (h : Httpbuf)
    → curl.handle ≡ true
    → answer curl alloc uri ≡ code
    → (code ≡ curle_ok → IsExact h × (content h.ptr ≡ body uri))
    → (performed alloc e code h ≡ ok (body uri ++ (0 ∷ [])))
      ⊎ ((x : ℕ) × (performed alloc e code h ≡ bad x) × NotGiven curl body memory alloc e uri x)
unfolding performed curl_code2errno
performed_lem curl body memory alloc e uri curle_out_of_memory h y q k =
    inr (enomem, refl, inr (inr (inl (y, rw q refl))))
performed_lem curl body memory alloc e uri curle_operation_timeouted h y q k =
    inr (etimedout, refl, inr (inr (inl (y, rw q refl))))
performed_lem curl body memory alloc e uri curle_other h y q k =
    inr (enetdown, refl, inr (inr (inl (y, rw q refl))))
performed_lem curl body memory alloc e uri curle_ok h y q k =
    let (x, c) = k refl in
    let (b, h', f, z, o) = append-content alloc (0 ∷ []) x (omega arith) in
    elim o [
      | inl (t, g) ↦
          inl (rw (f, t) (ended_lem e h'.ptr h'.size (body uri) (g ∙ ap (λ r. r ++ (0 ∷ [])) c)))
      | inr (t, g, r) ↦ inr (
        e,
        rw (f, t) (unfold ended in refl),
        inr (inr (inr (refl, q, refusal alloc (body uri) (ap (λ (r : List ℕ). length r) c) x r))),
      )
    ]

handled :
    (curl : Curl) (body : List ℕ → List ℕ) (alloc : ℕ → Bool) (e : ℕ) (uri : List ℕ) (b : Bool)
    → curl.handle ≡ b
    → IsCurl curl body
    → (with_handle curl alloc e uri b empty ≡ ok (body uri ++ (0 ∷ [])))
      ⊎ ((x : ℕ) × (with_handle curl alloc e uri b empty ≡ bad x)
          × NotGiven curl body true alloc e uri x)
unfolding with_handle
handled curl body alloc e uri false h k = inr (e, refl, inr (inl (refl, h)))
handled curl body alloc e uri true h k =
    let r = curl.perform uri (curl_callback alloc) empty in
    performed_lem curl body true alloc e uri r.0 r.1 h refl (λ z.
      let (cs, d, b) = k.delivers uri (curl_callback alloc) empty z in
      let (x, c) = delivered_lem alloc d empty-IsExact in (x, c ∙ unfold content in b))

-- What kcn_http_response_get does with a library that hands over the whole body where it succeeds: it gives
-- the body with a NUL behind it, or it fails: with ENOMEM where there is no memory for the buffer; with the
-- errno that was left where there is no handle; where curl_easy_perform() answered another code than
-- CURLE_OK, with ENOMEM, ETIMEDOUT or ENETDOWN for that code; and where it answered CURLE_OK only if the
-- body is too long for a size_t or the system refuses a block, with the errno that was left.
pub response_get_lem :
    (curl : Curl) (body : List ℕ → List ℕ) (memory : Bool) (alloc : ℕ → Bool) (e : ℕ) (uri : List ℕ)
    → IsCurl curl body
    → (response_get curl memory alloc e uri ≡ ok (body uri ++ (0 ∷ [])))
      ⊎ ((x : ℕ) × (response_get curl memory alloc e uri ≡ bad x)
          × NotGiven curl body memory alloc e uri x)
unfolding response_get Httpbuf.new with_handle
response_get_lem curl body false alloc e uri k = inr (enomem, refl, inl (refl, refl))
response_get_lem curl body true alloc e uri k = handled curl body alloc e uri curl.handle refl k
