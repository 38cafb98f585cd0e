-- ===== src/Eq/Defs.antt =====
-- The definitions of lib/kcn_eq.h and lib/kcn_eq.c. A value of an enum is its number: what arrives
-- over the wire is not checked against the enum.
use kcn.Common.{
  ℕ, ◌+◌, ◌-◌, ◌%◌, ◌^◌, List, Bool, true, false, not, ◌&&◌, ◌||◌, ltb, leb, ◌==◌, if◌then◌else◌,
  Outcome, ok, bad, enoent,
}
use kcn.Common.Text.{codes, strcasecmp}
use kcn.Str.{strtoull, ullong_max}

-- enum kcn_eq_type
abbrev pub type_none : ℕ
type_none = 0

abbrev pub type_storage : ℕ
type_storage = 1

abbrev pub type_cpuload : ℕ
type_cpuload = 2

abbrev pub type_traffic : ℕ
type_traffic = 3

abbrev pub type_rtt : ℕ
type_rtt = 4

abbrev pub type_hopcount : ℕ
type_hopcount = 5

abbrev pub type_aspathlen : ℕ
type_aspathlen = 6

abbrev pub type_wlanassoc : ℕ
type_wlanassoc = 7

abbrev pub type_max : ℕ
type_max = 8

-- enum kcn_eq_operator
abbrev pub op_none : ℕ
op_none = 0

abbrev pub op_lt : ℕ
op_lt = 1

abbrev pub op_le : ℕ
op_le = 2

abbrev pub op_eq : ℕ
op_eq = 3

abbrev pub op_gt : ℕ
op_gt = 4

abbrev pub op_ge : ℕ
op_ge = 5

-- struct kcn_eq. A time is the bit pattern of a time_t, a signed integer of 64 bits.
pub record Eq : Type 0 where
  pub type : ℕ
  pub op : ℕ
  pub val : ℕ
  pub start : ℕ
  pub end : ℕ

unfoldable pub type_ntoa : ℕ → Outcome (List ℕ)
type_ntoa t =
    if leb t type_none || leb type_max t
    then bad enoent
    else if t == type_storage
    then ok (codes "storage")
    else if t == type_cpuload
    then ok (codes "cpu")
    else if t == type_traffic
    then ok (codes "traffic")
    else if t == type_rtt
    then ok (codes "rtt")
    else if t == type_hopcount
    then ok (codes "hopcount")
    else if t == type_aspathlen
    then ok (codes "aspathlen")
    else ok (codes "wlanassoc")

-- strncasecmp() with the size of the first string, its NUL included, tells what strcasecmp() tells.
unfoldable pub type_aton : List ℕ → Outcome ℕ
type_aton s =
    if strcasecmp (codes "hdd") s || strcasecmp (codes "storage") s
    then ok type_storage
    else if strcasecmp (codes "cpu") s || strcasecmp (codes "load") s
    then ok type_cpuload
    else if strcasecmp (codes "traffic") s
    then ok type_traffic
    else if strcasecmp (codes "rtt") s
    then ok type_rtt
    else if strcasecmp (codes "hopcount") s || strcasecmp (codes "ttl") s
    then ok type_hopcount
    else if strcasecmp (codes "aspathlen") s
    then ok type_aspathlen
    else if strcasecmp (codes "wlanassoc") s
    then ok type_wlanassoc
    else bad enoent

unfoldable pub operator_aton : List ℕ → Outcome ℕ
operator_aton w =
    if strcasecmp (codes "<") w || strcasecmp (codes "lt") w
    then ok op_lt
    else if strcasecmp (codes "<=") w || strcasecmp (codes "le") w
    then ok op_le
    else if strcasecmp (codes "=") w || strcasecmp (codes "==") w || strcasecmp (codes "eq") w
    then ok op_eq
    else if strcasecmp (codes ">") w || strcasecmp (codes "gt") w
    then ok op_gt
    else if strcasecmp (codes ">=") w || strcasecmp (codes "ge") w
    then ok op_ge
    else bad enoent

unfoldable pub val_aton : List ℕ → Outcome ℕ
unfolding strtoull
val_aton w = strtoull w 0 ullong_max

-- KCN_TIME_NOW, (time_t)-1
abbrev pub time_now : ℕ
time_now = 2 ^ 64 - 1

-- `<` on time_t, which is signed: the sign bit is flipped.
unfoldable pub time_lt : ℕ → ℕ → Bool
time_lt a b = ltb ((a + 2 ^ 63) % 2 ^ 64) ((b + 2 ^ 63) % 2 ^ 64)

unfoldable pub time_match : ℕ → Eq → Bool
unfolding time_lt
time_match t ke =
    if not (ke.end == time_now) && time_lt ke.end t
    then false
    else if time_lt t ke.start
    then false
    else true
