-- ===== src/Netstat/Compile.antt =====
-- The keywords that lib/kcn_netstat.c compiles, as a user writes them.
use mathlib.Core.Path.{subst}
use kcn.Common.{
  ℕ, zero, suc, ◌+◌, ◌-◌, ◌^◌, ◌%◌, ◌≤◌, ◌<◌, ◌≡◌, refl, ◌∙◌, List, [], ◌∷◌, length, some, true,
  All, Outcome, ok, arith, le→ltb, min,
}
use kcn.Common.Text.{codes, isblank}
use kcn.Eq.{Eq, type_ntoa, type_aton, operator_aton, val_aton, type_max, time_now}
use kcn.Eq.Words.{and_then, type_aton-type_ntoa}
use kcn.Info.{Info}
use kcn.Keys.{key_concat, key_lengths}
use kcn.Keys.RoundTrip.{IsKey, IsWord, key_split-key_concat}
use kcn.Msg.{Query}
use kcn.Str.{llong_max, ullong_max}
use kcn.Str.Number.{IsDigit, decimal, in_range, strtoull-decimal}
use kcn.Netstat.Defs.{window, compile, search_keys, netstat_search, time_jitter}

-- The name of a type is a key that reads back as the type.
type_word :
    (t : ℕ) (name : List ℕ) → 1 ≤ t → t < type_max → type_ntoa t ≡ ok name → type_aton name ≡ ok t
unfolding and_then
type_word t name h k e = rw e at (type_aton-type_ntoa t h k)

IsWord-digits : (s : List ℕ) → All IsDigit s → IsWord s
unfolding isblank
IsWord-digits [] h = tt
IsWord-digits (c ∷ s) (h, k) = (ground arith, IsWord-digits s k)

-- A number that fits a signed integer of 64 bits is read as it is.
val_word :
    (c : ℕ) (s : List ℕ)
    → All IsDigit (c ∷ s)
    → decimal (c ∷ s) ≤ llong_max
    → val_aton (c ∷ s) ≡ ok (decimal (c ∷ s))
unfolding val_aton in_range
val_word c s h k =
    let v = decimal (c ∷ s) in
    let m : min v llong_max ≡ v = omega arith in
    strtoull-decimal c s 0 ullong_max h
    ∙ rw (m, le→ltb v 0 (omega arith), le→ltb ullong_max v (omega arith)) refl

IsKey-named :
    (xs name : List ℕ) → IsKey xs → ◌≡◌ {A = Outcome (List ℕ)} (ok xs) (ok name) → IsKey name
IsKey-named xs name h e = let p : xs ≡ name = cc in subst IsKey p h

-- The name of a type is a key.
type_ntoa-IsKey :
    (t : ℕ) (name : List ℕ) → 1 ≤ t → t < type_max → type_ntoa t ≡ ok name → IsKey name
unfolding type_ntoa isblank
type_ntoa-IsKey zero name p q e = absurd (omega arith)
type_ntoa-IsKey (suc zero) name p q e =
    IsKey-named (codes "storage") name (refl, (refl, (refl, (refl, (refl, (refl, (refl, tt))))))) e
type_ntoa-IsKey (suc (suc zero)) name p q e =
    IsKey-named (codes "cpu") name (refl, (refl, (refl, tt))) e
type_ntoa-IsKey (suc (suc (suc zero))) name p q e =
    IsKey-named (codes "traffic") name (refl, (refl, (refl, (refl, (refl, (refl, (refl, tt))))))) e
type_ntoa-IsKey (suc (suc (suc (suc zero)))) name p q e =
    IsKey-named (codes "rtt") name (refl, (refl, (refl, tt))) e
type_ntoa-IsKey (suc (suc (suc (suc (suc zero))))) name p q e =
    IsKey-named (codes "hopcount") name
      (refl, (refl, (refl, (refl, (refl, (refl, (refl, (refl, tt)))))))) e
type_ntoa-IsKey (suc (suc (suc (suc (suc (suc zero)))))) name p q e =
    IsKey-named (codes "aspathlen") name
      (refl, (refl, (refl, (refl, (refl, (refl, (refl, (refl, (refl, tt))))))))) e
type_ntoa-IsKey (suc (suc (suc (suc (suc (suc (suc zero))))))) name p q e =
    IsKey-named (codes "wlanassoc") name
      (refl, (refl, (refl, (refl, (refl, (refl, (refl, (refl, (refl, tt))))))))) e
type_ntoa-IsKey (suc (suc (suc (suc (suc (suc (suc (suc t)))))))) name p q e = absurd (omega arith)

-- The condition that three keywords say at a time.
abbrev pub condition : ℕ → ℕ → ℕ → ℕ → Eq
condition t op val now = record {
  type = t;
  op = op;
  val = val;
  start = (now + 2 ^ 64 - time_jitter) % 2 ^ 64;
  end = time_now;
}

compile_lem :
    (t op : ℕ) (name w : List ℕ) (c : ℕ) (s : List ℕ) (now : ℕ) (ke : Eq)
    → type_aton name ≡ ok t
    → operator_aton w ≡ ok op
    → val_aton (c ∷ s) ≡ ok (decimal (c ∷ s))
    → compile (ok now) ke (name ∷ w ∷ (c ∷ s) ∷ []) ≡ ok (condition t op (decimal (c ∷ s)) now)
unfolding compile window and_then
compile_lem t op name w c s now ke e f g = rw (compile, and_then, e, f, g) refl

-- A search for network statistics by keywords that kcn_key_concat has joined: the name of a type as
-- kcn_eq_type_ntoa gives it, a word without blanks that kcn_eq_operator_aton knows, and a number in
-- decimal digits up to the largest long long; where the string fits into a size_t, time() answers and
-- every block is given. kcn_netstat_search hands one query to the client: it has the type, the
-- operator, the number, a window from five minutes before that time and without an end, the type of
-- locator of the search, and its number of locators modulo 256, since the field is a uint8_t.
pub netstat_search-key_concat :
    (t op : ℕ) (name w : List ℕ) (c : ℕ) (s : List ℕ) (now : ℕ) (ke : Eq)
    (client : Query → Info → Outcome Info) (ki : Info)
    → 1 ≤ t
    → t < type_max
    → type_ntoa t ≡ ok name
    → IsKey w
    → operator_aton w ≡ ok op
    → All IsDigit (c ∷ s)
    → decimal (c ∷ s) ≤ llong_max
    → length (name ∷ w ∷ (c ∷ s) ∷ []) + key_lengths (name ∷ w ∷ (c ∷ s) ∷ []) < 2 ^ 64
    → (keys : List ℕ) × (key_concat true (name ∷ w ∷ (c ∷ s) ∷ []) ≡ some (some keys))
      × (netstat_search (λ n. true) (ok now) ke client ki keys
          ≡ some (
              client
                (record {
                  loctype = ki.loctype;
                  maxcount = ki.maxnlocs % 2 ^ 8;
                  eq = condition t op (decimal (c ∷ s)) now;
                })
                ki))
unfolding netstat_search search_keys and_then
netstat_search-key_concat t op name w c s now ke client ki p q e hw f h k z =
    let number : IsKey (c ∷ s) = IsWord-digits (c ∷ s) h in
    let (keys, x, y) =
      key_split-key_concat name (w ∷ (c ∷ s) ∷ [])
        (type_ntoa-IsKey t name p q e, (hw, (number, tt))) z in
    (
      keys,
      x,
      rw
          (
            netstat_search,
            y,
            search_keys,
            compile_lem t op name w c s now ke (type_word t name p q e) f (val_word c s h k),
            and_then,
          )
          refl,
    )
