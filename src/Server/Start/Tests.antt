-- ===== src/Server/Start/Tests.antt =====
-- The start of the server at a concrete input, and a run of its main thread.
use kcn.Common.{
  ℕ, ◌≡◌, refl, [], ◌∷◌, some, none, true, false, ◌==◌, if◌then◌else◌, Outcome, ok, bad,
}
use kcn.Sockets.{ListenCalls}
use kcn.Server.Threads.{dead, Worker, Daemon, htons, server_start, server_loop}
use kcn.Server.Start.{Begun, server_start_lem}

abbrev idle_worker : Worker
idle_worker = record { status = dead; number = 0; listenfd = none; evb = false; db = false }

abbrev cold : Daemon
cold = record {
  socket = none;
  port = htons 9410;
  main_thread = idle_worker;
  workers = idle_worker ∷ idle_worker ∷ [];
  closed = [];
}

abbrev calls : ListenCalls
calls = record { socket = ok 4; v6only = ok tt; bind = λ ss. ok tt; listen = ok tt }

-- The second thread is not created.
abbrev create : ℕ → Outcome (Unit {0})
create n = if n == 2 then bad 11 else ok tt

server_start_lem_example : Begun calls create cold (server_start (some 9) calls create cold)
server_start_lem_example = server_start_lem (some 9) calls create cold refl

-- A failing accept() is passed over.
server_loop_run : (server_loop true true (λ fd. fd) (ok 5 ∷ bad 24 ∷ ok 6 ∷ []) cold).0 ≡ 5 ∷ 6 ∷ []
unfolding server_loop
server_loop_run = refl
