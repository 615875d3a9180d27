-- ===== src/Persistence/Database.antt =====
-- The transactions `_read` and `_write`, which the stores of src/nexus_vector/persistence repeat.
-- SQLite is not part of the program: a database is the tables of one store, and a list that says
-- of each later transaction whether the engine raises `sqlite3.DatabaseError` in it (a lock, a
-- full disk). When the list is used up no transaction fails so. A transaction that raises for any
-- reason is rolled back: its work is a function into `Result`, whose new tables a raise drops.
use mathlib.Core.Path.{subst}
use nexus_vector_keeperhub.Prelude.{
  ◌≡◌, sym, inl, inr, Bool, false, List, [], ◌∷◌, arith, if◌then◌else◌,
}
use nexus_vector_keeperhub.Errors.{
  Error, ErrorClass, Code, Result, ok, err, fail, map_err, Result-cases,
}

pub record Database (T : Type 0) : Type 0 where
  pub tables : T
  pub faults : List Bool

abbrev pub head_fault : List Bool → Bool
head_fault [] = false
head_fault (b ∷ bs) = b

abbrev pub tail_faults : List Bool → List Bool
tail_faults [] = []
tail_faults (b ∷ bs) = bs

module _ {T A : Type 0} where
  -- The work of a transaction that writes: the new tables beside the result.
  abbrev commit : Result (A × T) → Database T → Result A × Database T
  commit (ok (a, t)) db = (ok a, record db { tables = t })
  commit (err e) db = (err e, db)

  -- `_write`: `translate` is what its `except` clauses make of an exception.
  unfoldable pub write :
      ErrorClass → (Error → Error) → (T → Result (A × T)) → Database T → Result A × Database T
  write c translate operation db =
      let rest : Database T = record db { faults = tail_faults db.faults } in
      if head_fault db.faults
      then (fail c Code.database_error, rest)
      else commit (map_err translate (operation db.tables)) rest

  -- `_read`
  unfoldable pub read : ErrorClass → (T → Result A) → Database T → Result A × Database T
  read c operation db =
      let rest : Database T = record db { faults = tail_faults db.faults } in
      if head_fault db.faults
      then (fail c Code.database_error, rest)
      else (operation db.tables, rest)

  -- A transaction that raises leaves the tables as they were.
  pub write-rollback :
      (c : ErrorClass) (tr : Error → Error) (op : T → Result (A × T)) (db : Database T) {e : Error}
      → (write c tr op db).0 ≡ err e
      → (write c tr op db).1.tables ≡ db.tables
  unfolding write
  write-rollback c tr op db h = ground arith

  pub read-tables :
      (c : ErrorClass) (op : T → Result A) (db : Database T) → (read c op db).1.tables ≡ db.tables
  unfolding read
  read-tables c op db = ground arith

  -- A transaction that returns has committed the tables that its work made.
  pub write-committed :
      (c : ErrorClass) (tr : Error → Error) (op : T → Result (A × T)) (db : Database T) {a : A}
      → (write c tr op db).0 ≡ ok a
      → op db.tables ≡ ok (a, (write c tr op db).1.tables)
  unfolding write
  write-committed c tr op db h = ground arith

  -- What holds of the tables before and of those that the work makes holds after the transaction.
  pub write-keeps {κ} :
      (Q : T → Type κ) (c : ErrorClass) (tr : Error → Error) (op : T → Result (A × T))
      (db : Database T)
      → ((a : A) (t : T) → op db.tables ≡ ok (a, t) → Q t)
      → Q db.tables
      → Q (write c tr op db).1.tables
  write-keeps Q c tr op db step old = elim (Result-cases (write c tr op db).0) [
    | inl (e, raised) ↦ subst Q (sym (write-rollback c tr op db raised)) old
    | inr (a, returned) ↦ step a (write c tr op db).1.tables (write-committed c tr op db returned)
  ]
