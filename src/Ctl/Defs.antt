-- ===== src/Ctl/Defs.antt =====
-- The definitions of the control program. A step that ends the process by err() fails with errno; the
-- event library adds an event again or not.
use kcn.Common.{
  ℕ, zero, suc, ◌-◌, List, length, take, drop, some, none, Bool, true, false, not, ltb, leb, ◌==◌,
  ◌&&◌, ◌||◌, if◌then◌else◌, Outcome, ok, bad, M, eagain, einval, e2big, eshutdown, add_size,
  sub_size,
}
use kcn.Common.Text.{isspace, c_string}
use kcn.Common.Fallible.{E, ◌>>=◌, ◌>>◌, pure, fail, gets, modify, lift, focus, attempt}
use kcn.Buf
use kcn.Buf.{Buf, ReadResult, len}
use kcn.Client.{add_send}
use kcn.Eq.{time_now}
use kcn.Msg.{Add, maxsiz, maxlocsiz}
use kcn.Net.{Net}
use kcn.Str.{strtoull, ullong_max}

-- isprint() in the C locale
unfoldable pub isprint : ℕ → Bool
isprint c = leb 32 c && leb c 126

abbrev pub on_buf : {A : Type 0} → M Buf A → E Buf A
on_buf m = lift (λ b. b) (λ b' b. b') m

-- The loop of forward(). Each round reads a byte, so that the fuel is enough that exceeds their number.
unfoldable pub forward_byte : ℕ → E Buf (Unit {0}) → E Buf (Unit {0})
unfolding isspace isprint
forward_byte c more = if isspace c then pure tt else if not (isprint c) then fail einval else more

unfoldable pub forward_loop : ℕ → E Buf (Unit {0})
unfolding forward_byte
forward_loop zero = λ b. none
forward_loop (suc fuel) = do
  t ← on_buf Buf.trailingdata
  if t == 0 then fail eagain else (do c ← on_buf Buf.get8; forward_byte c (forward_loop fuel))

unfoldable pub forward : E Buf (Unit {0})
unfolding forward_loop
forward b = forward_loop (suc (len b)) b

-- getstr: the bytes before the space, which the pointer and the length stand for
unfoldable pub getstr : E Buf (List ℕ)
unfolding forward
getstr = do
  p ← gets (λ b. b.cp)
  forward
  n ← gets (λ b. b.cp - p - 1)
  if ltb maxlocsiz n then fail e2big else gets (λ b. take n (drop p b.bytes))

unfoldable pub number_at : ℕ → Buf → Outcome ℕ
unfolding c_string
number_at p b = strtoull (c_string (drop p b.bytes)) 0 ullong_max

-- get64: the space behind the number becomes its NUL.
unfoldable pub get64 : E Buf ℕ
unfolding forward number_at
get64 = do
  p ← gets (λ b. b.cp)
  forward
  on_buf (Buf.backward 1)
  on_buf (Buf.put8 0)
  o ← gets (number_at p)
  λ b. some (o, b)

-- struct kcn_file
pub record Input : Type 0 where
  pub type : ℕ
  pub size : ℕ
  pub line : ℕ
  pub kb : Buf
  pub net : Net

abbrev pub on_kb : {A : Type 0} → E Buf A → E Input A
on_kb m = focus (λ i. i.kb) (λ b i. record i { kb = b }) m

-- The fields of a line
unfoldable pub fields : E Input Add
unfolding get64 getstr
fields = do
  t ← on_kb get64
  v ← on_kb get64
  l ← on_kb getstr
  type ← gets (λ i. i.type)
  pure (record { type = type; time = t; val = v; loc = l; loclen = length l })

-- What the loop of readfile does with a line, with the rounds after it; a line that has not arrived as
-- a whole ends the loop.
unfoldable pub take_line : Outcome Add → E Input (Unit {0}) → E Input (Unit {0})
take_line (bad e) more = if e == eagain then on_kb (on_buf Buf.start) else fail e
take_line (ok a) more = do
  focus (λ i. i.net) (λ n i. record i { net = n }) (add_send a)
  modify (λ i. record i { line = add_size i.line 1 })
  h ← on_kb (on_buf Buf.headingdata)
  on_kb (on_buf (Buf.trim_head h))
  more

-- The loop of readfile. Each round but the last drops a line, so that the fuel is enough that exceeds
-- the number of bytes.
unfoldable pub line_loop : ℕ → E Input (Unit {0})
unfolding fields take_line
line_loop zero i = none
line_loop (suc fuel) i =
    if i.size == 0 || leb maxsiz (len i.kb)
    then (attempt fields >>= λ o. take_line o (line_loop fuel)) i
    else some (ok tt, i)

-- The lines of what has been read.
unfoldable pub lines : E Input (Unit {0})
unfolding line_loop
lines = do
  modify (λ i. record i { size = sub_size i.size (len i.kb) })
  n ← gets (λ i. len i.kb)
  line_loop (suc n)
  modify (λ i. record i { size = add_size i.size (len i.kb) })

unfoldable pub read_lines : ℕ → E Input Bool
unfolding lines
read_lines error = if error == 0 then (lines >> pure true) else pure (not (error == eshutdown))

-- readfile: whether its event is added again, where the event library does not refuse
unfoldable pub readfile : Bool → List ReadResult → E Input Bool
unfolding read_lines
readfile false rs = pure true
readfile true rs = do x ← on_kb (on_buf (Buf.read rs)); read_lines x.0

-- kcndbctl_msg_add_send up to the loop of the connection
unfoldable pub msg_add : ℕ → ℕ → List ℕ → Outcome ℕ → E Net (Unit {0})
msg_add type now loc (bad e) = fail e
msg_add type now loc (ok v) =
    add_send (record { type = type; time = now; val = v; loc = loc; loclen = length loc })

unfoldable pub msg_add_send : ℕ → List ℕ → List ℕ → E Net (Unit {0})
unfolding msg_add
msg_add_send type v loc = msg_add type time_now loc (strtoull v 0 ullong_max)
