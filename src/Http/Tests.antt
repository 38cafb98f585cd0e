-- ===== src/Http/Tests.antt =====
-- A run of lib/kcn_http.c, and the theorem at a concrete input.
use kcn.Common.{ℕ, ◌≡◌, refl, [], ◌∷◌, Bool, true, false, ◌==◌, ok, bad, ◌⊎◌, ◌++◌, enetdown, arith}
use kcn.Common.Text.{codes}
use kcn.Httpbuf
use kcn.Httpbuf.{Httpbuf, append, content}
use kcn.Http.Defs.{Curl, CurlCode, Chunk, curle_ok, curle_other, response_get, curl_callback}
use kcn.Http.Response.{IsCurl, NotGiven, bytes, finished, taken, response_get_lem}

-- A library that hands over the body of every URI, `[]`, in one piece.
abbrev whole : Chunk
whole = record { size = 1; number = 2; bytes = codes "[]" }

abbrev code_of : Bool → CurlCode
code_of true = curle_ok
code_of false = curle_other

abbrev curl : Curl
curl = record {
  handle = true;
  perform = λ uri cb h. (code_of ((cb whole h).0 == 2), (cb whole h).1);
}

-- The library takes a callback that does not take everything for an error.
response_get_refused : response_get curl true (λ n. false) 0 [] ≡ bad enetdown
unfolding response_get curl_callback append Httpbuf.new
response_get_refused = refl

response_get_run : response_get curl true (λ n. true) 0 [] ≡ ok (b'[' ∷ b']' ∷ 0 ∷ [])
unfolding response_get curl_callback append content Httpbuf.new Httpbuf.get
response_get_run = refl

code_of_ok : (b : Bool) → code_of b ≡ curle_ok → b ≡ true
code_of_ok true h = refl
code_of_ok false h = cc

two : (n : ℕ) → (n == 2) ≡ true → n ≡ 2
two n h = ground arith

curl-IsCurl : IsCurl curl (λ uri. codes "[]")
curl-IsCurl = record {
  delivers = λ uri cb h e. (
    whole ∷ [],
    taken refl (omega arith) (two (cb whole h).0 (code_of_ok ((cb whole h).0 == 2) e)) finished,
    unfold bytes in refl,
  );
}

response_get_lem_example :
    (response_get curl true (λ n. true) 7 (codes "u") ≡ ok (codes "[]" ++ (0 ∷ [])))
    ⊎ ((x : ℕ) × (response_get curl true (λ n. true) 7 (codes "u") ≡ bad x)
        × NotGiven curl (λ uri. codes "[]") true (λ n. true) 7 (codes "u") x)
response_get_lem_example =
    response_get_lem curl (λ uri. codes "[]") true (λ n. true) 7 (codes "u") curl-IsCurl
