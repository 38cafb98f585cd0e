-- ===== src/Db/Array.antt =====
-- struct kcndb_db (kcndbd/kcndb_db.c): one table for each type, and the calls of a server on them.
use kcn.Common.{
  ℕ, zero, suc, List, [], ◌∷◌, Option, some, none, Bool, true, false, get_elem?, set, ok, bad,
}
use kcn.Common.Fallible.{E}
use kcn.Eq.{
  Eq, type_ntoa, type_storage, type_cpuload, type_traffic, type_rtt, type_hopcount, type_aspathlen,
  type_wlanassoc,
}
use kcn.Db.Defs.{Record, Table, table_open}
use kcn.Db.Records.{record_add, search}

-- The tables by their types less one.
abbrev pub Tables : Type 0
Tables = List Table

-- kcndb_db_table_lookup: type 0 and those behind the last are outside the array.
unfoldable pub table_lookup : Tables → ℕ → Option Table
table_lookup kd zero = none
table_lookup kd (suc i) = get_elem? kd i

unfoldable pub table_put : Tables → ℕ → Table → Tables
table_put kd zero t = kd
table_put kd (suc i) t = set kd i t

-- A call on the table of a type, with a state S beside the tables.
unfoldable pub on_type : {S A : Type 0} → ℕ → E (Table × S) A → E (Tables × S) A
unfolding table_lookup table_put
on_type type m p = elim (table_lookup p.0 type) [
  | none ↦ none
  | some t ↦ elim (m (t, p.1)) [
    | none ↦ none
    | some (o, q) ↦ some (o, (table_put p.0 type q.0, q.1))
  ]
]

abbrev alone : {A : Type 0} → E Table A → E (Table × Unit {0}) A
alone m p = elim (m p.0) [ none ↦ none | some (o, t) ↦ some (o, (t, p.1)) ]

-- kcndb_db_record_add and kcndb_db_search with their lookup
unfoldable pub db_record_add : ℕ → ℕ → Record → E (Tables × Unit {0}) ℕ
unfolding on_type
db_record_add fuel type r = on_type type (alone (record_add fuel r))

unfoldable pub db_search :
    {S : Type 0} → (Record → ℕ → S → Bool × S) → ℕ → Eq → ℕ → E (Tables × S) (Unit {0})
unfolding on_type
db_search cb fuel ke max = on_type ke.type (search cb fuel ke max)

-- kcndb_db_table_open: what malloc() and the opening of the two files give is an argument, a table with
-- its files or none. The outer `none` is a lock that waits for ever.
unfoldable pub opened_table : Option Table → Option (Option Table)
opened_table none = some none
opened_table (some t) = elim (table_open t) [
  | none ↦ none
  | some (o, t') ↦ elim o [ ok u ↦ some (some t') | bad e ↦ some none ]
]

unfoldable pub type_table_open : (ℕ → Option Table) → ℕ → Option (Option Table)
unfolding opened_table
type_table_open files type = elim (type_ntoa type) [
  | bad e ↦ some none
  | ok name ↦ opened_table (files type)
]

abbrev pub all_types : List ℕ
all_types =
    type_storage ∷ type_cpuload ∷ type_traffic ∷ type_rtt ∷ type_hopcount ∷ type_aspathlen
    ∷ type_wlanassoc ∷ []

-- A table before those that are still to be opened.
unfoldable pub table_before : Option Table → Option (Option Tables) → Option (Option Tables)
table_before none rest = some none
table_before (some t) none = none
table_before (some t) (some none) = some none
table_before (some t) (some (some kd)) = some (some (t ∷ kd))

-- The loop of kcndb_db_new: NULL where a table cannot be opened.
unfoldable pub new_loop : (ℕ → Option Table) → List ℕ → Option (Option Tables)
unfolding type_table_open table_before
new_loop files [] = some (some [])
new_loop files (type ∷ l) = elim (type_table_open files type) [
  | none ↦ none
  | some t ↦ table_before t (new_loop files l)
]

-- kcndb_db_new where malloc() gives the structure or not
unfoldable pub db_new : Bool → (ℕ → Option Table) → Option (Option Tables)
unfolding new_loop
db_new true files = new_loop files all_types
db_new false files = some none
