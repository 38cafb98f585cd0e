-- ===== src/Net/Checks.antt =====
-- What kcn_net_event_check (lib/kcn_net.c) answers.
use kcn.Common.{◌≡◌, refl, some, Bool, true, false, arith, ok}
use kcn.Common.Fallible.{◌>>◌}
use kcn.Net.Defs.{
  Net, Phase, initial, pending, established, disconnected, Events, state_change, disconnect,
}
use kcn.Net.Io.{event_check, wrong_timeout}

pub wrong_without_write : (p : Phase) (ev : Events) → wrong_timeout p ev ≡ true → ev.write ≡ false
unfolding wrong_timeout
wrong_without_write pending ev h = ground arith
wrong_without_write initial ev h = cc
wrong_without_write established ev h = cc
wrong_without_write disconnected ev h = cc

-- The three answers of kcn_net_event_check.
pub event_seen :
    (b : Bool) (ev : Events) (n n' : Net)
    → b ≡ true
    → state_change established n ≡ some (ok tt, n')
    → event_check b ev n ≡ some (ok true, n')
unfolding event_check
event_seen true ev n n' h e = rw (◌>>◌, e) refl
event_seen false ev n n' h e = cc

pub event_late :
    (b : Bool) (ev : Events) (n n' : Net)
    → b ≡ false
    → ev.timeout ≡ true
    → disconnect n ≡ some (ok tt, n')
    → event_check b ev n ≡ some (ok false, n')
unfolding event_check
event_late true ev n n' h t e = cc
event_late false ev n n' h t e = rw (t, ◌>>◌, e) refl

pub event_early :
    (b : Bool) (ev : Events) (n : Net)
    → b ≡ false
    → ev.timeout ≡ false
    → event_check b ev n ≡ some (ok false, n)
unfolding event_check
event_early true ev n h t = cc
event_early false ev n h t = rw t refl
