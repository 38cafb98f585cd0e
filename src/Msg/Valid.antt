-- ===== src/Msg/Valid.antt =====
-- The decoders of lib/kcn_msg.c on any bytes: where one returns, its buffer is valid.
use kcn.Common.{
  ℕ, ◌+◌, ◌≤◌, ◌<◌, ◌≡◌, refl, List, [], ◌∷◌, length, Option, some, none, Bool, true, false, not,
  leb, ltb, ◌==◌, if◌then◌else◌, M, ◌>>=◌, ◌>>◌, arith, ap, ◌-◌, inl, inr, Bool-cases,
}
use kcn.Buf.{Buf, get8, get16, need, forward, trailingdata, start}
use kcn.Buf.View.{IsValid, ahead, skip, trailingdata_lem}
use kcn.Buf.Cursor.{forward_lem, forward_past}
use kcn.Buf.Load.{ahead-skip, get8_lem, get16_bytes, need_lem, need_short}
use kcn.Msg.Defs.{
  Header, header_decode, header_check, header_body, header_read, consume, response_decode,
  response_body, response_rest, maxbodysiz, hdrsiz,
}
use kcn.Msg.Receive.{consume_lem}

-- The buffer of a step that has returned is valid.
abbrev pub After : {A : Type 0} → Option (A × Buf) → Type 0
After none = Unit {0}
After (some (a, b)) = IsValid b

abbrev pub Keeps : {A : Type 0} → M Buf A → Type 0
Keeps m = (b : Buf) → IsValid b → After (m b)

after_bind :
    {A B : Type 0} (r : Option (A × Buf)) (f : A → M Buf B)
    → After r
    → ((a : A) → Keeps (f a))
    → After (elim r as (λ x. Option (B × Buf)) [ none ↦ none | some (a, b) ↦ f a b ])
after_bind none f h k = tt
after_bind (some (a, b)) f h k = k a b h

bind_kept :
    {A B : Type 0} (m : M Buf A) (f : A → M Buf B)
    → Keeps m
    → ((a : A) → Keeps (f a))
    → Keeps (m >>= f)
bind_kept m f h k b v = after_bind (m b) f (h b v) k

get8_short : (b : Buf) → need 1 b ≡ none → get8 b ≡ none
unfolding get8
get8_short b e = rw (e, ◌>>◌) refl

get16_short : (b : Buf) → need 2 b ≡ none → get16 b ≡ none
unfolding get16
get16_short b e = rw (e, ◌>>◌) refl

get8-Keeps : Keeps get8
get8-Keeps b v = go (ahead b) refl
  where
    go : (l : List ℕ) → ahead b ≡ l → After (get8 b)
    go [] e = rw (get8_short b (need_short 1 v (omega (arith, ap (λ (l : List ℕ). length l) e)))) tt
    go (x ∷ r) e = rw (get8_lem x r v e) ((ahead-skip (x ∷ []) r v e).0)

get16-Keeps : Keeps get16
get16-Keeps b v = go (ahead b) refl
  where
    short : (l : List ℕ) → ahead b ≡ l → length l < 2 → After (get16 b)
    short l e h =
        rw (get16_short b (need_short 2 v (omega (arith, ap (λ (l : List ℕ). length l) e)))) tt

    go : (l : List ℕ) → ahead b ≡ l → After (get16 b)
    go [] e = short [] e (omega arith)
    go (x ∷ []) e = short (x ∷ []) e (omega arith)
    go (x ∷ y ∷ r) e = rw (get16_bytes x y r v e) ((ahead-skip (x ∷ y ∷ []) r v e).0)

trailingdata-Keeps : Keeps trailingdata
trailingdata-Keeps b v = rw (trailingdata_lem v) v

consume-Keeps : Keeps consume
consume-Keeps b v = let (e, w) = consume_lem v in rw e w

start-Keeps : Keeps start
unfolding start
start-Keeps b v = omega arith

forward-Keeps : (n : ℕ) → Keeps (forward n)
forward-Keeps n b v = elim (Bool-cases (leb (b.cp + n) b.ep)) [
  | inl h ↦ rw (forward_lem n v (ground arith)) (skipped (ground arith))
  | inr h ↦ rw (forward_past n v (ground arith)) tt
]
  where
    skipped : b.cp + n ≤ b.ep → IsValid (skip n b)
    skipped h = omega arith

need-Keeps : (n : ℕ) → Keeps (need n)
need-Keeps n b v = elim (Bool-cases (leb n (length (ahead b)))) [
  | inl h ↦ rw (need_lem n v (ground arith)) v
  | inr h ↦ rw (need_short n v (ground arith)) tt
]

then_kept : {A B : Type 0} (m : M Buf A) (k : M Buf B) → Keeps m → Keeps k → Keeps (m >> k)
then_kept m k h l b v = after_bind (m b) (λ a. k) (h b v) (λ a. l)

if_kept : {A : Type 0} (c : Bool) (m k : M Buf A) → Keeps m → Keeps k → Keeps (if c then m else k)
if_kept true m k h l = h
if_kept false m k h l = l

header_read-Keeps : Keeps header_read
unfolding header_read
header_read-Keeps =
    bind_kept get8 _ get8-Keeps
      (λ v. bind_kept get8 _ get8-Keeps (λ t. bind_kept get16 _ get16-Keeps (λ n b v. v)))

header_body-Keeps : (h : Header) → Keeps (header_body h)
unfolding header_body
header_body-Keeps h = bind_kept trailingdata _ trailingdata-Keeps (λ t.
    if_kept (ltb t h.len) _ _ (then_kept start _ start-Keeps (λ b v. v))
      (then_kept consume _ consume-Keeps (λ b v. v)))

header_check-Keeps : (h : Header) → Keeps (header_check h)
unfolding header_check
header_check-Keeps h =
    if_kept (not (h.ver == 1)) _ _ (λ b v. v)
      (if_kept (ltb maxbodysiz h.len) _ _ (λ b v. v) (header_body-Keeps h))

pub header_decode-Keeps : Keeps header_decode
unfolding header_decode
header_decode-Keeps = bind_kept trailingdata _ trailingdata-Keeps (λ t.
    if_kept (ltb t hdrsiz) _ _ (λ b v. v)
      (bind_kept header_read _ header_read-Keeps header_check-Keeps))

response_rest-Keeps : (e s m : ℕ) → Keeps (response_rest e s m)
unfolding response_rest
response_rest-Keeps e s m b v =
    then_kept (forward m) _ (forward-Keeps m) (then_kept consume _ consume-Keeps (λ b v. v)) b v

pub response_decode-Keeps : (h : Header) → Keeps (response_decode h)
unfolding response_decode response_body
response_decode-Keeps h =
    if_kept (ltb h.len 2) _ _ (λ b v. v)
      (then_kept (need 2) _ (need-Keeps 2) (
        bind_kept get8 _ get8-Keeps
          (λ e. bind_kept get8 _ get8-Keeps (λ s. response_rest-Keeps e s (h.len - 2)))))
