-- ===== src/Eq/Tests.antt =====
-- Runs of lib/kcn_eq.c, and the theorems at concrete inputs.
use kcn.Common.{◌-◌, ◌≡◌, refl, false, ok, bad, enoent}
use kcn.Common.Text.{codes, strcasecmp}
use kcn.Eq.Defs.{Eq, type_aton, type_cpuload, operator_aton, op_ge, time_match, time_now}

operator_aton_run : operator_aton (codes "GE") ≡ ok op_ge
unfolding operator_aton strcasecmp
operator_aton_run = refl

operator_aton_unknown : operator_aton (codes "=>") ≡ bad enoent
unfolding operator_aton strcasecmp
operator_aton_unknown = refl

abbrev window : Eq
window = record { type = 1; op = 1; val = 10; start = 100; end = 200 }

-- An end before 1970 other than KCN_TIME_NOW matches no later time.
time_match_negative :
    time_match 5 (record { type = 1; op = 1; val = 0; start = 0; end = time_now - 1 }) ≡ false
unfolding time_match
time_match_negative = refl

load_type : type_aton (codes "Load") ≡ ok type_cpuload
unfolding type_aton strcasecmp
load_type = refl
