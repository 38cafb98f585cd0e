-- ===== src/Http/Defs.antt =====
-- The definitions of lib/kcn_http.c. libcurl is a parameter; `alloc n` says whether realloc() gives a block
-- of `n` bytes.
use kcn.Common.{
  ℕ, ◌*◌, ◌%◌, ◌^◌, List, [], ◌∷◌, take, some, none, Bool, true, false, ltb, if◌then◌else◌, Outcome,
  ok, bad, enomem, etimedout, enetdown,
}
use kcn.Httpbuf
use kcn.Httpbuf.{Httpbuf, append}

-- The codes of libcurl that the source tells apart.
pub data CurlCode : Type 0 where
  curle_ok : CurlCode
  curle_out_of_memory : CurlCode
  curle_operation_timeouted : CurlCode
  curle_other : CurlCode

-- What libcurl hands to the callback: a size, a number, and the bytes.
pub record Chunk : Type 0 where
  pub size : ℕ
  pub number : ℕ
  pub bytes : List ℕ

abbrev pub Callback : Type 0
Callback = Chunk → Httpbuf → ℕ × Httpbuf

-- libcurl: whether curl_easy_init() gives a handle, and curl_easy_perform() on an URI with a callback for
-- what arrives and the object that the callback is called with.
pub record Curl : Type 0 where
  pub handle : Bool
  pub perform : List ℕ → Callback → Httpbuf → CurlCode × Httpbuf

-- kcn_http_curl_code2errno
unfoldable pub curl_code2errno : CurlCode → ℕ
curl_code2errno curle_out_of_memory = enomem
curl_code2errno curle_operation_timeouted = etimedout
curl_code2errno curle_ok = enetdown
curl_code2errno curle_other = enetdown

-- kcn_http_curl_callback
unfoldable pub curl_callback : (ℕ → Bool) → Callback
curl_callback alloc c khb =
    let total = c.size * c.number % 2 ^ 64 in
    if ltb total c.size
    then (0, khb)
    else (let (stored, khb') = append alloc (take total c.bytes) khb in
        if stored then (total, khb') else (0, khb'))

-- What is left of the buffer, behind the NUL that ends it.
unfoldable pub ended : ℕ → Bool × Httpbuf → Outcome (List ℕ)
ended e (false, khb) = bad e
ended e (true, khb) = elim ((Httpbuf.get khb).0) [ none ↦ bad e | some p ↦ ok p ]

unfoldable pub performed : (ℕ → Bool) → ℕ → CurlCode → Httpbuf → Outcome (List ℕ)
unfolding ended curl_code2errno
performed alloc e curle_ok khb = ended e (append alloc (0 ∷ []) khb)
performed alloc e curle_out_of_memory khb = bad (curl_code2errno curle_out_of_memory)
performed alloc e curle_operation_timeouted khb = bad (curl_code2errno curle_operation_timeouted)
performed alloc e curle_other khb = bad (curl_code2errno curle_other)

unfoldable pub with_handle : Curl → (ℕ → Bool) → ℕ → List ℕ → Bool → Httpbuf → Outcome (List ℕ)
unfolding performed curl_callback
with_handle curl alloc e uri false khb = bad e
with_handle curl alloc e uri true khb =
    let (code, khb') = curl.perform uri (curl_callback alloc) khb in performed alloc e code khb'

-- kcn_http_response_get; the flag is about the structure of the buffer, and `e` is the errno that the calls
-- of libraries leave where they fail without a code.
unfoldable pub response_get : Curl → Bool → (ℕ → Bool) → ℕ → List ℕ → Outcome (List ℕ)
unfolding with_handle
response_get curl memory alloc e uri = elim (Httpbuf.new memory) [
  | none ↦ bad enomem
  | some khb ↦ with_handle curl alloc e uri curl.handle khb
]
