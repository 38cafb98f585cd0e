-- ===== src/Client/Exchange.antt =====
-- What kcn_client_read (lib/kcn_client.c) makes of the responses of a server.
use kcn.Common.{
  ℕ, zero, suc, ◌+◌, ◌%◌, ◌≤◌, ◌<◌, ◌≡◌, ◌≢◌, refl, sym, ap, ◌∙◌, List, [], ◌∷◌, ◌++◌, length,
  Option, some, none, true, false, ltb, lt→ltb, ◌==◌, arith, Outcome, ok, bad, eagain, IsByte,
  append_assoc, append-nil, take-length, length-append,
}
use kcn.Buf.{Buf}
use kcn.Buf.View.{IsValid, ahead}
use kcn.Info.{Info, Loc, nlocs, loc_add}
use kcn.Msg.{Header, Response, header_decode, type_response, maxbodysiz}
use kcn.Msg.Encode.{packet}
use kcn.Msg.Fields.{Leaves, loc_of, response_decode_lem}
use kcn.Msg.RoundTrip.{receive, deliver, receive_lem}
use kcn.Client.Defs.{
  Receiver, Round, again, over_with, next_memory, store, take_response, response_of, next_response,
  finish, after_round, client_read_loop, client_read,
}
use kcn.Net.{Net}

-- A locator that the server sends, and the message in which it does.
pub record Reply : Type 0 where
  pub score : ℕ
  pub loc : List ℕ

abbrev pub reply_packet : Reply → List ℕ
reply_packet r = packet type_response (0 ∷ (r.score % 256) ∷ r.loc)

-- The last message, with the errno of the server.
abbrev pub last_packet : ℕ → List ℕ
last_packet e = packet type_response ((e % 256) ∷ 0 ∷ [])

abbrev pub replies : List Reply → List ℕ → List ℕ
replies [] rest = rest
replies (r ∷ rs) rest = reply_packet r ++ replies rs rest

-- A locator is sent only if it is not empty and fits into a message.
abbrev pub Sendable : List Reply → Type 0
Sendable [] = Unit {0}
Sendable (r ∷ rs) = (1 ≤ length r.loc) × (2 + length r.loc ≤ maxbodysiz) × Sendable rs

abbrev pub found : Reply → Loc
found r = record { uri = r.loc; score = r.score % 256 }

abbrev pub all_found : List Reply → List Loc
all_found [] = []
all_found (r ∷ rs) = found r ∷ all_found rs

next_response-receive : (c : Buf) → next_response c ≡ receive response_of c
unfolding next_response receive deliver
next_response-receive c = answered (header_decode c)
  where
    answered :
        (x : Option (Outcome Header × Buf))
        → ◌≡◌ {A = Option (Outcome Response × Buf)}
            (elim x [
              | none ↦ none
              | some (o, b') ↦ elim o [ ok h ↦ response_of h b' | bad e ↦ some (bad e, b') ]
            ])
            (elim x [ none ↦ none | some (o, b') ↦ deliver response_of o b' ])
    answered none = refl
    answered (some (ok h, b)) = refl
    answered (some (bad e, b)) = refl

-- A whole response is read, whatever follows it.
next_response_lem :
    (x y : ℕ) (p r : List ℕ) {c : Buf}
    → IsValid c
    → c.cp ≡ c.sp
    → 2 + length p ≤ maxbodysiz
    → ahead c ≡ packet type_response (x ∷ y ∷ p) ++ r
    → Leaves next_response
        (ok (record { error = x; score = y; loc = loc_of p; loclen = length p }))
        r
        c
next_response_lem x y p r {c} v s h e =
    let o : Response = record { error = x; score = y; loc = loc_of p; loclen = length p } in
    let n : 2 + length p ≡ suc (suc (length p)) = omega arith in
    let (b, f, w, a, z) =
      receive_lem response_of type_response (x ∷ y ∷ p) r (ok o) v s (omega arith) e
        (λ c' w' s' e'. unfold response_of in (rw n at (response_decode_lem x y 2 p r w' e'))) in
    (b, next_response-receive c ∙ f, w, a, z)

-- The receiver of a search behind its first locators.
abbrev pub receiver : ℕ → ℕ → Info → Receiver
receiver e errno ki = record { error = e; info = ki; errno = errno; memory = [] }

abbrev pub with_found : Info → List Reply → Info
with_found ki rs = record ki { locs = ki.locs ++ all_found rs }

abbrev read_one : Info → Reply → Info
read_one ki r = record ki { locs = ki.locs ++ (found r ∷ []) }

-- A locator that has room is added.
take_response_lem :
    (e0 e1 : ℕ) (ki : Info) (r : Reply)
    → 1 ≤ length r.loc
    → nlocs ki < ki.maxnlocs
    → take_response
        (receiver e0 e1 ki)
        (record { error = 0; score = r.score % 256; loc = loc_of r.loc; loclen = length r.loc })
      ≡ some (again (receiver e0 e1 (read_one ki r)))
unfolding take_response store next_memory loc_add nlocs
take_response_lem e0 e1 ki r h k =
    let a : (length r.loc == 0) ≡ false = ground arith in
    let b : ltb 0 (length r.loc) ≡ true = lt→ltb 0 (length r.loc) (omega arith) in
    let c : (ki.maxnlocs == length ki.locs) ≡ false = ground arith in
    let d : ltb (length ki.locs) ki.maxnlocs ≡ true = lt→ltb (length ki.locs) ki.maxnlocs k in
    rw (a, b, c, store, loc_add, d, take-length r.loc) refl

-- The last message ends the loop with its error.
take_response_last :
    (r : Receiver) (e : ℕ)
    → IsByte e
    → e ≢ eagain
    → take_response r
        (record { error = e % 256; score = 0; loc = loc_of []; loclen = length {A = ℕ} [] })
      ≡ some (over_with e r)
unfolding take_response
take_response_last r e x z =
    let m : e % 256 ≡ e = omega arith in
    let t : (e == eagain) ≡ false = ground arith in rw (m, t) refl

with_found_nil : (ki : Info) → with_found ki [] ≡ ki
with_found_nil ki = ap (λ l. record ki { locs = l }) (append-nil ki.locs)

with_found-read_one :
    (ki : Info) (r : Reply) (rs : List Reply)
    → with_found (read_one ki r) rs ≡ with_found ki (r ∷ rs)
with_found-read_one ki r rs =
    ap (λ l. record ki { locs = l }) (append_assoc ki.locs (found r ∷ []) (all_found rs))

round_lem :
    (fuel : ℕ) (r : Receiver) (m : Response) (x : Round) (c : Buf) {b : Buf}
    → next_response c ≡ some (ok m, b)
    → take_response r m ≡ some x
    → client_read_loop (suc fuel) r c ≡ after_round x (λ r'. client_read_loop fuel r' b) b
unfolding client_read_loop
round_lem fuel r m x c g t = rw (client_read_loop, g, t) refl

-- The rounds of the client on the replies of the server and its last message.
client_loop_lem :
    (rs : List Reply) (fuel e0 e1 e : ℕ) (ki : Info) (rest : List ℕ) {c : Buf}
    → Sendable rs
    → length rs < fuel
    → nlocs ki + length rs ≤ ki.maxnlocs
    → IsByte e
    → e ≢ eagain
    → IsValid c
    → c.cp ≡ c.sp
    → ahead c ≡ replies rs (last_packet e ++ rest)
    → (b : Buf) × (client_read_loop fuel (receiver e0 e1 ki) c
        ≡ some ((ok e, receiver e e (with_found ki rs)), b))
      × IsValid b
      × (ahead b ≡ rest)
unfolding nlocs after_round finish
client_loop_lem rs zero e0 e1 e ki rest h f n x z v s a = absurd (omega arith)
client_loop_lem [] (suc fuel) e0 e1 e ki rest {c} h f n x z v s a =
    let (b, g, w, y, q) = next_response_lem (e % 256) 0 [] rest v s (omega arith) a in
    (
      b,
      round_lem fuel (receiver e0 e1 ki) _ _ c g (take_response_last (receiver e0 e1 ki) e x z)
          ∙ ap (λ i. some ((ok e, receiver e e i), b)) (sym (with_found_nil ki)),
      w,
      y,
    )
client_loop_lem (r ∷ rs) (suc fuel) e0 e1 e ki rest {c} h f n x z v s a =
    let (b, g, w, y, q) =
      next_response_lem 0 (r.score % 256) r.loc (replies rs (last_packet e ++ rest)) v s h.1 a in
    let (b', k, w', y') =
      client_loop_lem rs fuel e0 e1 e (read_one ki r) rest h.2 (omega arith)
        (omega (arith, length-append ki.locs (found r ∷ []))) x z w (sym q) y in
    (
      b',
      round_lem fuel (receiver e0 e1 ki) _ _ c g (take_response_lem e0 e1 ki r h.0 (omega arith))
          ∙ k
          ∙ ap (λ i. some ((ok e, receiver e e i), b')) (with_found-read_one ki r rs),
      w',
      y',
    )

-- kcn_client_read on a connection whose buffer has, from the cursor at its start, some responses with
-- locators and the last one, with an errno that is a byte and not EAGAIN, and with any bytes behind: if
-- each locator is neither empty nor longer than a message allows, and the search has room for all
-- and the memory, then it answers that errno and keeps it, the search has these locators behind
-- those it had, in their order and with their scores, and the bytes behind are still ahead.
pub client_read-replies :
    (rs : List Reply) (fuel e0 e1 e : ℕ) (ki : Info) (rest : List ℕ) (n : Net)
    → Sendable rs
    → length rs < fuel
    → nlocs ki + length rs ≤ ki.maxnlocs
    → IsByte e
    → e ≢ eagain
    → IsValid n.ibuf
    → n.ibuf.cp ≡ n.ibuf.sp
    → ahead n.ibuf ≡ replies rs (last_packet e ++ rest)
    → (b : Buf) × (client_read fuel (n, receiver e0 e1 ki)
        ≡ some (ok e, (record n { ibuf = b }, receiver e e (with_found ki rs))))
      × IsValid b
      × (ahead b ≡ rest)
unfolding client_read
client_read-replies rs fuel e0 e1 e ki rest n h f m x z v s a =
    let (b, k, w, y) = client_loop_lem rs fuel e0 e1 e ki rest h f m x z v s a in
    (b, rw (client_read, k) refl, w, y)
