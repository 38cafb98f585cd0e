-- ===== src/Common/Errno.antt =====
-- The values of errno, by their numbers on Linux: one of them is sent in a response. A function
-- that returns `false` and sets errno answers `bad`.
use Prim.Native.Nat.{ℕ}

pub data Outcome (A : Type 0) : Type 0 where
  ok : A → Outcome A
  bad : ℕ → Outcome A

abbrev pub enoent : ℕ
enoent = 2

abbrev pub esrch : ℕ
esrch = 3

abbrev pub eintr : ℕ
eintr = 4

abbrev pub enxio : ℕ
enxio = 6

abbrev pub e2big : ℕ
e2big = 7

abbrev pub eagain : ℕ
eagain = 11

abbrev pub enomem : ℕ
enomem = 12

abbrev pub einval : ℕ
einval = 22

abbrev pub erange : ℕ
erange = 34

abbrev pub eprotonosupport : ℕ
eprotonosupport = 93

abbrev pub eopnotsupp : ℕ
eopnotsupp = 95

abbrev pub enetdown : ℕ
enetdown = 100

abbrev pub eshutdown : ℕ
eshutdown = 108

abbrev pub etoomanyrefs : ℕ
etoomanyrefs = 109

abbrev pub eafnosupport : ℕ
eafnosupport = 97

abbrev pub epfnosupport : ℕ
epfnosupport = 96

abbrev pub etimedout : ℕ
etimedout = 110

abbrev pub einprogress : ℕ
einprogress = 115
