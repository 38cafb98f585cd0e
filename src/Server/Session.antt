-- ===== src/Server/Session.antt =====
-- A session of kcndbd/kcndb_server.c: a connection from its creation to its end. What the event loop makes
-- of the connection is an argument.
use kcn.Common.{
  ℕ, suc, ◌≡◌, refl, List, Option, some, none, Bool, true, false, ◌⊎◌, inl, inr, Outcome, ok, bad,
  enomem, if◌then◌else◌,
}
use kcn.Net.{Net, new, destroy, read_enable}
use kcn.Net.Sound.{IsSound}
use kcn.Net.States.{read_enable_lem}
use kcn.Net.Creation.{Fits, new_lem, destroy_lem}

-- kcndb_server_session behind kcn_net_new, which has closed the descriptor `n` times: how often it is
-- closed in the end.
unfoldable pub session_with : (Net → Option Net) → Outcome Net → ℕ → Option ℕ
session_with loop (bad e) n = some (suc n)
session_with loop (ok c) n = elim (read_enable c) [
  | none ↦ none
  | some (o, c1) ↦ elim (loop c1) [
    | none ↦ none
    | some c2 ↦ elim (destroy c2) [ none ↦ none | some c3 ↦ some c3.closes ]
  ]
]

-- kcndb_server_session
unfoldable pub session :
    (Net → Option Net)
    → ℕ
    → ℕ
    → Bool
    → Option (List ℕ)
    → Option (List ℕ)
    → Bool
    → Bool
    → List ℕ
    → List ℕ
    → List Bool
    → Option ℕ
unfolding session_with
session loop errno size m i o r w name adds mallocs =
    elim (new errno size m i o r w name adds mallocs) [
      | none ↦ none
      | some (c, n) ↦ session_with loop c n
    ]

-- What is asked of the event loop: it ends and leaves a sound connection sound, as the steps of a
-- connection do.
pub record IsLoop (loop : Net → Option Net) : Type 0 where
  pub ends : (n : Net) → IsSound n → (n' : Net) × (loop n ≡ some n') × IsSound n'

-- A session of the server, on every answer of malloc() and of the event library, with an event loop
-- that ends and leaves a sound connection sound. Where kcn_net_new gives a connection, the descriptor
-- is closed once when the session ends. Where it fails, there was no memory for the structure, errno
-- is ENOMEM and the descriptor is closed once, or errno is what the failure has left and the
-- descriptor is closed twice.
pub session_lem :
    (loop : Net → Option Net) (errno size : ℕ) (m : Bool) (i o : Option (List ℕ)) (r w : Bool)
    (name adds : List ℕ) (mallocs : List Bool)
    → IsLoop loop
    → Fits i
    → Fits o
    → ((n : Net) × (new errno size m i o r w name adds mallocs ≡ some (ok n, 0))
        × (session loop errno size m i o r w name adds mallocs ≡ some 1))
      ⊎ ((new errno size m i o r w name adds mallocs
            ≡ some (bad (if m then errno else enomem), if m then 1 else 0))
          × (session loop errno size m i o r w name adds mallocs ≡ some (if m then 2 else 1)))
unfolding session session_with
session_lem loop errno size m i o r w name adds mallocs l h k =
    elim (new_lem errno size m i o r w name adds mallocs h k) [
      | inl (n, e, s, u) ↦
          let (n1, x, f, (s1, _, _, _)) = read_enable_lem s u in
          let (n2, g, s2) = l.ends n1 s1 in
          let (n3, d, c) = destroy_lem s2 in
          inl (n, e, rw (session, e, session_with, f, g, d, c) refl)
      | inr e ↦ inr (e, counted m e)
    ]
  where
    counted :
        (b : Bool)
        → new errno size m i o r w name adds mallocs
          ≡ some (bad (if b then errno else enomem), if b then 1 else 0)
        → session loop errno size m i o r w name adds mallocs ≡ some (if b then 2 else 1)
    counted true e = rw (session, e) refl
    counted false e = rw (session, e) refl
