-- ===== src/Google/Request.antt =====
-- The URIs of the requests of kcn_google_search (lib/kcn_google.c).
use kcn.Common.{
  ℕ, ◌+◌, ◌*◌, ◌^◌, ◌≤◌, ◌<◌, ◌≡◌, refl, ap, ◌∙◌, add_size, List, [], ◌∷◌, ◌++◌, length, Option,
  some, none, Bool, true, false, ltb, ◌⊎◌, inl, inr, Bool-cases, arith, le→leb, length-append,
  length-take, take,
}
use kcn.Common.Text.{codes}
use kcn.Info.{Info, country, userip, nonempty}
use kcn.Uri
use kcn.Uri.{Uri, param_puts, resize, str_len, enc}
use kcn.Uri.Encoding.{IsExact, Refuses, parameter, param_puts_lem, str_len-plain, length-enc_le}
use kcn.Google.Defs.{rcountmax, and_param, base_params, digits, startopt, page_uri}

-- An URI that is exact, and where the flag says so it is that of `ku` with `k` bytes more at most.
pub record Longer (ku : Uri) (k : ℕ) (r : Option (Bool × Uri)) : Type 0 where
  pub flag : Bool
  pub uri : Uri
  pub returns : r ≡ some (flag, uri)
  pub exact : IsExact uri
  pub longer : flag ≡ true → (ku.urilen ≤ uri.urilen) × (uri.urilen ≤ ku.urilen + k)

-- How many bytes a parameter takes.
abbrev pub room : List ℕ → Option (List ℕ) → ℕ
room param none = 0
room param (some val) = length (parameter param val)

param_puts-Longer :
    (alloc : ℕ → ℕ → Bool) (param : List ℕ) (val : Option (List ℕ)) (ku : Uri)
    → IsExact ku
    → ku.urilen + room param val + 1 < 2 ^ 64
    → Longer ku (room param val) (param_puts alloc param val ku)
unfolding param_puts
param_puts-Longer alloc param none ku h f = record {
  flag = true;
  uri = ku;
  returns = refl;
  exact = h;
  longer = λ z. (omega arith, omega arith);
}
param_puts-Longer alloc param (some val) ku h f =
    let (b, ku', e, x, o) = param_puts_lem alloc param val ku h f in
    record { flag = b; uri = ku'; returns = e; exact = x; longer = λ z. grown b ku' z x o }
  where
    grown :
        (b : Bool) (ku' : Uri)
        → b ≡ true
        → IsExact ku'
        → ((b ≡ true) × (ku'.uri ≡ ku.uri ++ parameter param val)) ⊎ ((b ≡ false) × Refuses alloc)
        → (ku.urilen ≤ ku'.urilen) × (ku'.urilen ≤ ku.urilen + length (parameter param val))
    grown b ku' z x (inl (t, e)) =
        let l : length ku'.uri ≡ length ku.uri + length (parameter param val) =
          ap (λ (l : List ℕ). length l) e ∙ length-append ku.uri (parameter param val) in
        (omega (arith, h.exact, x.exact, l), omega (arith, h.exact, x.exact, l))
    grown b ku' z x (inr (t, e)) = absurd (cc)

and_param-Longer :
    (alloc : ℕ → ℕ → Bool) (param : List ℕ) (val : Option (List ℕ)) (k : ℕ) {ku : Uri}
    {r : Option (Bool × Uri)}
    → ku.urilen + (k + room param val) + 1 < 2 ^ 64
    → Longer ku k r
    → Longer ku (k + room param val) (and_param alloc param val r)
unfolding and_param
and_param-Longer alloc param val k {ku} {r} f l = rw (l.returns) (go l.flag l.uri l.exact l.longer)
  where
    go :
        (b : Bool) (u : Uri)
        → IsExact u
        → (b ≡ true → (ku.urilen ≤ u.urilen) × (u.urilen ≤ ku.urilen + k))
        → Longer ku (k + room param val) (and_param alloc param val (some (b, u)))
    go false u x m = record {
      flag = false;
      uri = u;
      returns = refl;
      exact = x;
      longer = λ z. absurd (cc);
    }
    go true u x m =
        let (a, b) = m refl in
        let p = param_puts-Longer alloc param val u x (omega (arith, b, f)) in
        record {
          flag = p.flag;
          uri = p.uri;
          returns = p.returns;
          exact = p.exact;
          longer = λ z. let (c, d) = p.longer z in (omega (arith, a, c), omega (arith, b, d));
        }

-- What the parameters of each request take.
abbrev pub base_room : Info → List ℕ → ℕ
base_room ki keys =
    room (codes "rsz") (some ((b'0' + rcountmax ki.maxnlocs) ∷ []))
    + room (codes "gl") (country ki)
    + room (codes "userip") (userip ki)
    + room (codes "q") (some keys)

pub base_params-Longer :
    (alloc : ℕ → ℕ → Bool) (ki : Info) (keys : List ℕ) (ku : Uri)
    → IsExact ku
    → ku.urilen + base_room ki keys + 1 < 2 ^ 64
    → Longer ku (base_room ki keys) (base_params alloc ki keys ku)
unfolding base_params
base_params-Longer alloc ki keys ku h f =
    let a = room (codes "rsz") (some ((b'0' + rcountmax ki.maxnlocs) ∷ [])) in
    let b = room (codes "gl") (country ki) in
    let c = room (codes "userip") (userip ki) in
    and_param-Longer (λ i. alloc (14 + i)) (codes "q") (some keys) (a + b + c) f
      (and_param-Longer (λ i. alloc (10 + i)) (codes "userip") (userip ki) (a + b)
        (omega (arith, f))
        (and_param-Longer (λ i. alloc (6 + i)) (codes "gl") (country ki) a (omega (arith, f))
          (param_puts-Longer (λ i. alloc (2 + i)) (codes "rsz")
            (some ((b'0' + rcountmax ki.maxnlocs) ∷ [])) ku h (omega (arith, f)))))

room_le : (param l : List ℕ) → room param (nonempty l) ≤ length param + 2 + 3 * length l
unfolding nonempty
room_le param [] = omega arith
room_le param (c ∷ l) =
    omega (arith, length-append param (codes "=" ++ enc (c ∷ l)), length-enc_le (c ∷ l))

pub base_room_le :
    (ki : Info) (keys : List ℕ)
    → base_room ki keys ≤ 3 * length ki.country + 3 * length ki.userip + 3 * length keys + 40
unfolding country userip
base_room_le ki keys =
    let r = length-enc_le ((b'0' + rcountmax ki.maxnlocs) ∷ []) in
    omega (
      arith,
      r,
      room_le (codes "gl") ki.country,
      room_le (codes "userip") ki.userip,
      length-enc_le keys,
    )

-- The digits of a start take sixty bytes at most, even where each were encoded.
abbrev pub page_room : ℕ
page_room = 67

startopt_room : (n : ℕ) → room (codes "start") (some (startopt n)) ≤ page_room
unfolding startopt
startopt_room n = omega (
  arith,
  length-enc_le (startopt n),
  length-take 20 (digits 20 n []),
  length-append (codes "start") (codes "=" ++ enc (startopt n)),
)

pub page_uri-Longer :
    (alloc : ℕ → ℕ → Bool) (n : ℕ) (ku : Uri)
    → IsExact ku
    → ku.urilen + page_room + 1 < 2 ^ 64
    → Longer ku page_room (page_uri alloc n ku)
unfolding page_uri
page_uri-Longer alloc n ku h f = elim (Bool-cases (ltb 0 n)) [
  | inl e ↦
      let s = startopt_room n in
      let p =
        param_puts-Longer (λ i. alloc (18 + 4 * n + i)) (codes "start") (some (startopt n)) ku h
          (omega (arith, s, f)) in
      rw e (record {
        flag = p.flag;
        uri = p.uri;
        returns = p.returns;
        exact = p.exact;
        longer = λ z. let (c, d) = p.longer z in (c, omega (arith, s, d));
      })
  | inr e ↦ rw e (record {
    flag = true;
    uri = ku;
    returns = refl;
    exact = h;
    longer = λ z. (omega arith, omega arith);
  })
]

-- The URI gets its old length back.
pub resize_lem :
    (n : ℕ) (ku : Uri)
    → IsExact ku
    → n ≤ ku.urilen
    → (ku' : Uri) × (resize n ku ≡ some (tt, ku')) × IsExact ku' × (ku'.urilen ≡ n)
unfolding resize
resize_lem n ku h k = (
  record ku { urilen = n; uri = take n ku.uri },
  rw (le→leb _ _ k) refl,
  record { exact = omega (arith, length-take n ku.uri, h.exact); inside = omega (arith, h.inside) },
  refl,
)

-- kcn_uri_new
pub new-IsExact :
    (alloc : ℕ → ℕ → Bool) (base : List ℕ)
    → length base + 1 < 2 ^ 64
    → (Uri.new alloc base ≡ none)
      ⊎ ((ku : Uri) × (Uri.new alloc base ≡ some ku) × IsExact ku × (ku.urilen ≡ length base))
unfolding Uri.new
new-IsExact alloc base h = elim (Bool-cases (alloc 0 16)) [
  | inr e ↦ inl (rw (e) refl)
  | inl e ↦ elim (Bool-cases (alloc 1 (add_size (str_len base false) 1))) [
    | inr f ↦ inl (rw (e, f) refl)
    | inl f ↦
        let n = str_len-plain base (omega arith) in
        inr (
          record {
            urilen = str_len base false;
            size = add_size (str_len base false) 1;
            uri = take (str_len base false) base;
          },
          rw (e, f) refl,
          record {
            exact = omega (arith, length-take (str_len base false) base, n);
            inside = omega (arith, n);
          },
          n,
        )
  ]
]
