-- ===== src/Programs/Tests.antt =====
-- Runs of the programs, and the theorems at concrete inputs.
use kcn.Common.{
  ℕ, ◌≡◌, refl, List, [], ◌∷◌, Option, some, none, Bool, true, false, ◌==◌, ◌||◌, enomem,
  if◌then◌else◌, ok, arith, inr,
}
use kcn.Common.Text.{codes}
use kcn.Info.{new}
use kcn.Google.{Json, rcountmax}
use kcn.Sockets.{ListenCalls}
use kcn.Server.Threads.{dead, Worker, Daemon, server_start, start_at}
use kcn.Programs.Options.{Given}
use kcn.Programs.Kcndbd
use kcn.Programs.Kcndbd.{
  daemon_option, daemon_main, d_option, daemon_options-last, daemon_main_lem, Proper, HasPort,
}
use kcn.Programs.Key2loc
use kcn.Programs.Key2loc.{key2loc_main, doit, err}
use kcn.Programs.Resolution.{Resolves, question}
use kcn.Programs.Searches.{round_search, doit-round_search}
use kcn.Keys.{key_lengths}

abbrev calls : ListenCalls
calls = record { socket = ok 4; v6only = ok tt; bind = λ ss. ok tt; listen = ok tt }

abbrev idle : Worker
idle = record { status = dead; number = 0; listenfd = none; evb = false; db = false }

abbrev start : Kcndbd.Settings → Option (Bool × Daemon)
start s =
    server_start none calls (λ n. ok tt)
      (record {
        socket = none;
        port = s.port;
        main_thread = idle;
        workers = idle ∷ [];
        closed = [];
      })

starts : (s : Kcndbd.Settings) → HasPort s → (x : Bool × Daemon) × (start s ≡ some x)
unfolding server_start start_at
starts s h = (_, refl)

abbrev line : List Given
line = record { option = b'p'; value = codes "80" } ∷ record { option = b'f'; value = [] } ∷ []

daemon_main_lem_example : Proper start (daemon_main line true false start)
daemon_main_lem_example = daemon_main_lem line true false start starts

-- A value of JSON is a number, and only the empty text is none.
abbrev json : Json
json = record {
  Value = ℕ;
  loads = λ s. some 200;
  object_get = λ v k. some v;
  is_integer = λ v. true;
  integer_value = λ v. v;
  is_array = λ v. true;
  array_size = λ v. 1;
  array_get = λ v i. if i == 0 then some v else none;
  string_value = λ v. some (codes "a.org");
}

abbrev asked : Key2loc.Settings
asked = record {
  db = some (codes "google");
  loctype = 1;
  country = some (codes "jp");
  userip = none;
  server = none;
  repeats = 2;
  number = 3;
  priority = 0;
}

-- The second round has memory for one locator only, and the other database is not asked.
abbrev web : List (List ℕ) → Key2loc.Search
web =
    round_search json (λ i uri. ok []) (λ i c n. true) (λ i n. i == 0 || n == 0) (λ i. true) 9 1 2
      (λ i ki keys. none)

doit-round_search_example :
    (doit (web (codes "k" ∷ codes "l" ∷ [])) false 46 asked ≡ err enomem)
    × Resolves 3
        (question 46 asked)
        (web (codes "k" ∷ codes "l" ∷ []))
        1
        (doit (web (codes "k" ∷ codes "l" ∷ [])) true 46 asked)
unfolding rcountmax key_lengths
doit-round_search_example =
    doit-round_search json (λ i uri. ok []) (λ i c n. true) (λ i n. i == 0 || n == 0) (λ i. true) 9
      1 2 (λ i ki keys. none) 46 1 (codes "k") (codes "l" ∷ []) asked
      (λ i. record { few_results = λ uri res arr e f. omega arith }) refl refl (inr refl) refl
      (omega arith) (omega arith) (omega arith) tt (omega arith)

-- The type of locators is checked, and `-s` may be given once.
key2loc_twice :
    key2loc_main
      (λ s ks i ki. none)
      (λ v. 1)
      []
      true
      46
      (record { option = b's'; value = codes "a" }
        ∷ record { option = b's'; value = codes "b" }
        ∷ [])
      []
    ≡ Key2loc.shown (some (codes "multiple servers specified"))
unfolding key2loc_main
key2loc_twice = refl

-- No locators are asked for: an assertion fails.
key2loc_zero :
    key2loc_main
      (λ s ks i ki. none)
      (λ v. 0)
      []
      true
      46
      (record { option = b'n'; value = codes "0" } ∷ [])
      (codes "k" ∷ [])
    ≡ Key2loc.abort
unfolding key2loc_main Key2loc.search_with new
key2loc_zero = refl
