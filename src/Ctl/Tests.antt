-- ===== src/Ctl/Tests.antt =====
-- Runs of the control program, and the theorem at a concrete input.
use kcn.Common.{◌-◌, ◌≡◌, refl, some, bad, einval, ok, arith}
use kcn.Common.Text.{codes, isspace, c_string}
use kcn.Buf
use kcn.Buf.{Buf}
use kcn.Buf.View.{IsValid, ahead, skip}
use kcn.Str
use kcn.Str.{strtoull}
use kcn.Ctl.Defs.{isprint, forward_byte, forward_loop, forward, getstr, get64, number_at}
use kcn.Ctl.Fields.{scan, field, getstr_lem}

-- A line of a file.
abbrev line : Buf
line = record { size = 12; sp = 0; ep = 10; bytes = codes "7 42 a.jp\n\0\0"; cp = 0 }

line-IsValid : IsValid line
line-IsValid = omega arith

getstr_lem_example :
    getstr (skip 5 line)
    ≡ some (
      field
          (scan (ahead (skip 5 line))).0
          ((scan (ahead (skip 5 line))).1 - 1)
          (ahead (skip 5 line)),
      skip (scan (ahead (skip 5 line))).1 (skip 5 line),
    )
getstr_lem_example = getstr_lem {b = skip 5 line} (omega arith)

getstr_run : getstr (skip 5 line) ≡ some (ok (codes "a.jp"), skip 10 line)
unfolding getstr forward forward_loop forward_byte isspace isprint Buf.trailingdata Buf.get8
    Buf.need Buf.load_next Buf.len
getstr_run = refl

number_run : number_at 2 (record line { bytes = codes "7 42\0a.jp\n\0\0" }) ≡ ok 42
unfolding number_at c_string strtoull Str.strtoll Str.skip_spaces isspace Str.strtoll_at Str.signed
    Str.digits Str.clamp Str.check_number Str.nonempty Str.starts_with_digit
number_run = refl

get64_run : get64 line ≡ some (ok 7, record line { cp = 2; bytes = codes "7\042 a.jp\n\0\0" })
unfolding get64 number_at c_string forward forward_loop forward_byte isspace isprint
    Buf.trailingdata Buf.headingdata Buf.backward Buf.get8 Buf.put8 Buf.append Buf.grow
    Buf.store_next Buf.need Buf.load_next Buf.len strtoull Str.strtoll Str.skip_spaces
    Str.strtoll_at Str.signed Str.digits Str.clamp Str.check_number Str.nonempty
    Str.starts_with_digit
get64_run = refl

-- The same line read again from its start: the NUL is not printable.
get64_again :
    get64 (record line { bytes = codes "7\042 a.jp\n\0\0" })
    ≡ some (bad einval, record line { cp = 2; bytes = codes "7\042 a.jp\n\0\0" })
unfolding get64 number_at c_string forward forward_loop forward_byte isspace isprint
    Buf.trailingdata Buf.headingdata Buf.backward Buf.get8 Buf.put8 Buf.append Buf.grow
    Buf.store_next Buf.need Buf.load_next Buf.len
get64_again = refl
