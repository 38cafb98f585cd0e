-- ===== src/Net/Tests.antt =====
-- Runs of lib/kcn_net.c on a small connection, and the theorems at concrete inputs.
use kcn.Common.{◌≡◌, ◌≢◌, ◌⊎◌, refl, [], ◌∷◌, replicate, some, true, false, arith, ok}
use kcn.Buf
use kcn.Buf.{Buf, ReadResult, WriteResult}
use kcn.Net.Defs.{Net, initial, pending, established, Events}
use kcn.Net.Io.{fire_write, write_cb}
use kcn.Net.Sound.{IsSound}
use kcn.Net.Drain.{Settled, write_cb_lem}
use kcn.Net.Waiting.{stream}
use kcn.Net.Life.{write_cb_stalls}

abbrev two_bytes : Buf
two_bytes = record { size = 4; sp = 1; ep = 3; bytes = 9 ∷ 5 ∷ 6 ∷ 9 ∷ []; cp = 1 }

abbrev fresh : Net
fresh = record {
  state = initial;
  name = [];
  reading = false;
  writing = false;
  closes = 0;
  ibuf = record { size = 4; sp = 0; ep = 0; bytes = replicate 4 0; cp = 0 };
  obuf = record { size = 4; sp = 0; ep = 0; bytes = replicate 4 0 };
  obufq = [];
  wire = [];
  adds = [];
  mallocs = [];
}

fresh-IsSound : IsSound fresh
unfolding Buf.init
fresh-IsSound = record { suits = (refl, refl); ibuf = omega arith; obuf = omega arith; queue = tt }

-- The connection that has a buffer to write and waits for its establishment.
abbrev waiting : Net
waiting = record fresh {
  state = pending;
  writing = true;
  obufq = record { size = 2; sp = 0; ep = 2; bytes = 5 ∷ 6 ∷ [] } ∷ [];
}

waiting-IsSound : IsSound waiting
unfolding Buf.init
waiting-IsSound = record {
  suits = (refl, refl);
  ibuf = omega arith;
  obuf = omega arith;
  queue = (omega arith, tt);
}

abbrev both : Events
both = record { read = true; write = true; timeout = false }

abbrev late : Events
late = record { read = false; write = false; timeout = true }

write_cb_lem_example :
    (n' : Net) × (write_cb both 2 (WriteResult.wrote 1 ∷ []) waiting ≡ some (ok tt, n'))
    × IsSound n'
    × (stream n' ≡ 5 ∷ 6 ∷ [])
    × ((true ≡ false) ⊎ ((waiting.adds ≢ []) ⊎ Settled n'))
write_cb_lem_example = write_cb_lem both (WriteResult.wrote 1 ∷ []) waiting-IsSound tt

write_cb_stalls_example :
    (n' : Net) × (write_cb late 1 [] (fire_write waiting) ≡ some (ok tt, n'))
    × (n'.state ≡ established)
    × (n'.obufq ≡ waiting.obufq)
    × (n'.writing ≡ false)
write_cb_stalls_example = write_cb_stalls late 1 [] waiting-IsSound refl refl refl
