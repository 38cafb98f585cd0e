-- ===== src/Db/Storing/Answers.antt =====
-- kcndb_db_search behind kcndb_db_record_add (kcndbd/kcndb_db.c).
use kcn.Common.{
  ℕ, suc, ◌+◌, ◌<◌, ◌≡◌, List, [], ◌∷◌, ◌++◌, length, some, Bool, ok, arith, length-append,
}
use kcn.Eq.{Eq}
use kcn.Db.Defs.{Record, Table}
use kcn.Db.Records
use kcn.Db.Records.{record_add}
use kcn.Db.Rounds.{handed}
use kcn.Db.Selection.{selected, answer}
use kcn.Db.Search.{search-selected}
use kcn.Db.Storing.State.{IsStore, IsStore-IsTable, IsNew, placed}
use kcn.Db.Storing.Store.{record_add-IsStore}

-- On a table that nobody uses, whose calls of the system do all they can, with the records `rs`, their
-- locators behind the table of offsets, and with empty buffers: where a record is added that is not
-- older than the last one, whose numbers fit and whose locator is a string of less than 2 ^ 16 bytes
-- with room for it and a hash value without a chain, kcndb_db_record_add succeeds. A search with a known
-- operator and fuel for one record more then hands the records among `rs` and the new one that match its
-- condition to its callback, with their locators, the new one last, at most as many as asked for, until
-- the callback gives up, and answers for their number.
pub search-record_add :
    {S : Type 0} (cb : Record → ℕ → S → Bool × S) (ke : Eq) (rs : List Record) (r : Record)
    (fuel n max : ℕ) (t : Table) (s : S)
    → IsStore ke rs t
    → IsNew ke rs r t
    → length rs + 1 < n
    → (u v : Table) × (record_add (suc fuel) r t ≡ some (ok (length t.locs.content), u))
      × (Records.search cb n ke max (u, s) ≡ (
          let found = selected ke max (rs ++ (placed r t ∷ [])) in
          some (answer (handed cb found s).0 (length found), (v, (handed cb found s).1))))
search-record_add cb ke rs r fuel n max t s h k l =
    let (u, e, h') = record_add-IsStore ke rs r fuel t h k in
    let all = rs ++ (placed r t ∷ []) in
    let (v, y) =
      search-selected cb all n ke max u s (omega (arith, length-append rs (placed r t ∷ [])))
        (IsStore-IsTable ke all u h') in
    (u, v, e, y)
