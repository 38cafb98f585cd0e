-- ===== src/Programs/Kcndbctl.antt =====
-- kcndbctl/kcndbctl_main.c, and kcndbctl_file_process of kcndbctl/kcndbctl_file.c: the program that sends
-- measurements to the server. What the system and the event loop answer are arguments; a failure of
-- the program ends it with its message.
use kcn.Common.{
  ℕ, ◌^◌, List, [], ◌∷◌, Option, some, none, Bool, false, ltb, ◌==◌, if◌then◌else◌, Outcome, ok,
  bad,
}
use kcn.Common.Text.{codes}
use kcn.Buf.{Buf, data_new, init}
use kcn.Ctl.{Input, msg_add_send}
use kcn.Eq.{type_aton}
use kcn.Net.{Net, destroy}
use kcn.Programs.Options.{Given, Parsed, usage, aborted, parsed, options, priority_increment}

-- path and the verbosity
pub record Settings : Type 0 where
  pub path : Option (List ℕ)
  pub priority : ℕ

unfoldable pub ctl_option : Given → Settings → Parsed Settings
unfolding priority_increment
ctl_option g s =
    if g.option == b'f'
    then parsed (record s { path = some g.value })
    else if g.option == b'v'
    then parsed (record s { priority = priority_increment s.priority })
    else usage none

-- How the program ends: with its usage, by err() with an errno, by a failed assertion, or with whether it
-- has succeeded.
pub data Ended : Type 0 where
  shown : Option (List ℕ) → Ended
  err : ℕ → Ended
  abort : Ended
  exited : Bool → Ended

-- What the system answers to the calls of kcndbctl_file_process: getfilesize() by the size of the file, the
-- block of kcn_buf_data_new, and what the event loop makes of the file.
pub record FileCalls : Type 0 where
  pub file : Outcome (Unit {0})
  pub lock : Outcome (Unit {0})
  pub size : Outcome ℕ
  pub block : ℕ → Outcome (List ℕ)
  pub base_set : Outcome (Unit {0})
  pub event_add : Outcome (Unit {0})
  pub loop : Input → Option (Bool × Net)

-- MAXBUFSIZ
abbrev pub maxbufsiz : ℕ
maxbufsiz = 2 ^ 20

-- bufalloc
unfoldable pub bufalloc : (ℕ → Outcome (List ℕ)) → ℕ → Outcome Buf
bufalloc block filesize = elim (block (if ltb filesize maxbufsiz then filesize else maxbufsiz)) [
  | bad e ↦ bad e
  | ok l ↦ ok (init (data_new l))
]

-- A call that ends the program where it fails.
unfoldable pub or_err : {A B : Type 0} → Outcome A → (A → Outcome B) → Outcome B
or_err (bad e) f = bad e
or_err (ok a) f = f a

-- kcndbctl_file_process up to its loop
unfoldable pub file_opened : FileCalls → ℕ → Net → Outcome Input
unfolding or_err bufalloc
file_opened c type kn = or_err c.file (λ u. or_err c.lock (λ u. or_err c.size (λ size.
    or_err (bufalloc c.block size) (λ kb. or_err c.base_set (λ u.
      or_err c.event_add
        (λ u. ok (record { type = type; size = size; line = 0; kb = kb; net = kn })))))))

-- The end of main() with the connection, which kcn_client_finish destroys.
unfoldable pub finish_with : Bool → Net → Ended
finish_with b kn = elim (destroy kn) [ none ↦ abort | some kn' ↦ exited b ]

unfoldable pub file_process : FileCalls → ℕ → Net → Ended
unfolding file_opened finish_with
file_process c type kn = elim (file_opened c type kn) [
  | bad e ↦ err e
  | ok kf ↦ elim (c.loop kf) [ none ↦ abort | some (b, kn') ↦ finish_with b kn' ]
]

-- kcndbctl_msg_add_send with the loop of the connection
unfoldable pub sent : (Net → Option (Bool × Net)) → Option (Outcome (Unit {0}) × Net) → Ended
unfolding finish_with
sent loop none = abort
sent loop (some (o, kn)) = elim o [
  | bad e ↦ finish_with false kn
  | ok u ↦ elim (loop kn) [ none ↦ abort | some (b, kn') ↦ finish_with b kn' ]
]

-- The rest of main() behind the connection, with the operands behind the type
unfoldable pub process :
    FileCalls → (Net → Option (Bool × Net)) → ℕ → Net → Option (List ℕ) → List (List ℕ) → Ended
unfolding file_process sent
process c loop type kn (some path) [] = file_process c type kn
process c loop type kn (some path) (v ∷ vs) = shown (some (codes "wrong number of arguments"))
process c loop type kn none (v ∷ loc ∷ []) = sent loop (msg_add_send type v loc kn)
process c loop type kn none [] = shown (some (codes "wrong number of arguments"))
process c loop type kn none (v ∷ []) = shown (some (codes "wrong number of arguments"))
process c loop type kn none (v ∷ loc ∷ w ∷ vs) = shown (some (codes "wrong number of arguments"))

-- main() behind the options; the flag is whether event_init() gives a base, and `client` is what
-- kcn_client_init answers.
unfoldable pub operands :
    FileCalls → (Net → Option (Bool × Net)) → Bool → Option Net → List (List ℕ) → Settings → Ended
unfolding process
operands c loop evb client [] s = shown (some (codes "missing database type"))
operands c loop evb client (t ∷ vs) s = elim (type_aton t) [
  | bad e ↦ shown (some (codes "unknown database type"))
  | ok type ↦
      if evb
      then (elim client [
        | none ↦ shown (some (codes "cannot connect to kcndbd"))
        | some kn ↦ process c loop type kn s.path vs
      ])
      else shown (some (codes "cannot allocate event base"))
]

-- main()
unfoldable pub ctl_main :
    FileCalls → (Net → Option (Bool × Net)) → Bool → Option Net → List Given → List (List ℕ) → Ended
unfolding options ctl_option operands
ctl_main c loop evb client gs vs =
    elim (options ctl_option gs (record { path = none; priority = 0 })) [
      | usage m ↦ shown m
      | aborted ↦ abort
      | parsed s ↦ operands c loop evb client vs s
    ]
