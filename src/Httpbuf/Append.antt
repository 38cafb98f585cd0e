-- ===== src/Httpbuf/Append.antt =====
-- What kcn_httpbuf_append keeps of a response (lib/kcn_httpbuf.c).
use kcn.Common.{
  ℕ, ◌+◌, ◌^◌, ◌<◌, ◌≤◌, ◌≡◌, refl, ◌∙◌, List, ◌++◌, length, some, Bool, true, false, ltb, add_size,
  ◌⊎◌, inl, inr, Bool-cases, arith, length-append,
}
use kcn.Httpbuf.Defs.{Httpbuf, content, append}

-- The size is that of the bytes, and fits a size_t.
pub record IsExact (khb : Httpbuf) : Type 0 where
  pub exact : length (content khb.ptr) ≡ khb.size
  pub fits : khb.size < 2 ^ 64

-- On a buffer whose size is that of its bytes, kcn_httpbuf_append of an object of fewer than 2 ^ 64 bytes
-- leaves such a buffer. Either it answers true, and the bytes stand behind the others; or it answers
-- false, the buffer is as it was, and the sizes together do not fit a size_t or the system refuses
-- a block of some size.
pub append-content :
    (alloc : ℕ → Bool) (p : List ℕ) {khb : Httpbuf}
    → IsExact khb
    → length p < 2 ^ 64
    → (b : Bool) × (khb' : Httpbuf) × (append alloc p khb ≡ (b, khb'))
      × IsExact khb'
      × (((b ≡ true) × (content khb'.ptr ≡ content khb.ptr ++ p))
          ⊎ ((b ≡ false)
              × (khb' ≡ khb)
              × ((2 ^ 64 ≤ khb.size + length p) ⊎ ((n : ℕ) × (alloc n ≡ false)))))
unfolding append content
append-content alloc p {khb} h k = elim (Bool-cases (ltb (add_size khb.size (length p)) khb.size)) [
  | inl e ↦ (false, khb, rw e refl, h, inr (refl, refl, inl (ground arith)))
  | inr e ↦ elim (Bool-cases (alloc (add_size khb.size (length p)))) [
    | inr f ↦ (false, khb, rw (e, f) refl, h, inr (refl, refl, inr (_, f)))
    | inl f ↦
        let n : add_size khb.size (length p) ≡ khb.size + length p = ground arith in
        (
          true,
          record { ptr = some (content khb.ptr ++ p); size = add_size khb.size (length p) },
          rw (e, f) refl,
          record {
            exact = length-append (content khb.ptr) p ∙ omega (arith, h.exact, n);
            fits = ground arith;
          },
          inl (refl, refl),
        )
  ]
]
