-- ===== src/Persistence/AttemptStore/Progress.antt =====
-- How far the attempts of the journal have come, and that no operation takes one back.
use mathlib.Core.Bool.{false≢true}
use nexus_vector_keeperhub.Prelude.{
  ℕ, String, ◌≡◌, sym, ap, ◌∙◌, inl, inr, Bool, true, false, not, Option, none, some, arith, ◌==◌,
  eq_iff, Bool-cases,
}
use nexus_vector_keeperhub.Errors.{Error, ErrorClass, ok, err}
use nexus_vector_keeperhub.Clock.{Datetime}
use nexus_vector_keeperhub.Runtime.{Runtime}
use nexus_vector_keeperhub.Attempt.{AttemptRecord}
use nexus_vector_keeperhub.Attempt.Moves.{IsValid}
use nexus_vector_keeperhub.Attempt.States.{AttemptState, same}
use nexus_vector_keeperhub.Persistence.Database.{write-keeps, write-committed, write-rollback}
use nexus_vector_keeperhub.Persistence.AttemptStore.{
  StoredAttempt, AttemptRow, AttemptTable, AttemptDb, row_of, create_operation, create,
  transition_operation, transition, translate,
}
use nexus_vector_keeperhub.Persistence.AttemptStore.Rows.{
  row_of-update_rows, row_of-update_rows_ne, row_of-id,
}
use nexus_vector_keeperhub.Persistence.AttemptStore.Moves.{
  Transitioned, moved, transition_operation-Transitioned,
}
use nexus_vector_keeperhub.Persistence.AttemptStore.Creation.{create_operation-cases}

-- The journal holds the attempt, in a state after PREPARED.
abbrev pub started_row : Option AttemptRow → Bool
started_row none = false
started_row (some row) = not (same row.state AttemptState.prepared)

unfoldable pub started : String → AttemptTable → Bool
started id t = started_row (row_of id t)

module _ (rt : Runtime) (a : String) where
  transition_operation-started :
      (id : String) (expected : ℕ) (target : AttemptState) (at : Datetime) (t : AttemptTable)
      {s : StoredAttempt} {t' : AttemptTable}
      → transition_operation rt id expected target at t ≡ ok (s, t')
      → started a t ≡ true
      → started a t' ≡ true
  unfolding started
  transition_operation-started id expected target at t {s} {t'} h old =
      let step = transition_operation-Transitioned rt id expected target at t h in
      elim (Bool-cases (id == a)) [
        | inl this ↦ rw step.table (
            rw (← (eq_iff id a).0 this) (
              ap started_row
                (row_of-update_rows id expected target at.instant t step.found step.current)
              ∙ ground (arith, step.permitted)))
        | inr other ↦ rw step.table (
            ap started_row (
              row_of-update_rows_ne id expected target at.instant a t
                (λ e. false≢true (sym other ∙ (eq_iff id a).1 (sym e))))
            ∙ old)
      ]

  create_operation-started :
      (r : AttemptRecord) (t : AttemptTable) {s : StoredAttempt} {t' : AttemptTable}
      → create_operation rt r t ≡ ok (s, t')
      → started a t ≡ true
      → started a t' ≡ true
  unfolding started row_of
  create_operation-started r t h old = elim (create_operation-cases rt r t h) [
    | inl there ↦ rw there.table old
    | inr new ↦ rw new.table (ground (arith, eq_iff r.attempt_id a, new.fresh))
  ]

  -- Whatever a transition or a creation is called with, and whether it returns or raises, an
  -- attempt that was started stays started.
  pub transition-started :
      (id : String) (expected : ℕ) (target : AttemptState) (at : Datetime) (db : AttemptDb)
      → started a db.tables ≡ true
      → started a (transition rt id expected target at db).1.tables ≡ true
  unfolding transition
  transition-started id expected target at db old =
      write-keeps (λ t. started a t ≡ true) ErrorClass.attempt_store translate
        (transition_operation rt id expected target at) db
        (λ s t h. transition_operation-started id expected target at db.tables h old) old

  pub create-started :
      (r : AttemptRecord) (db : AttemptDb)
      → started a db.tables ≡ true
      → started a (create rt r db).1.tables ≡ true
  unfolding create
  create-started r db old = elim (Bool-cases (same r.state AttemptState.prepared)) [
    | inr late ↦ rw late old
    | inl initial ↦ rw initial (
        write-keeps (λ t. started a t ≡ true) ErrorClass.attempt_store translate
          (create_operation rt r) db (λ s t h. create_operation-started r db.tables h old) old)
  ]

-- The claim of an attempt: it was not started before, and it is started after.
pub transition-claims :
    (rt : Runtime) (id : String) (expected : ℕ) (at : Datetime) (db : AttemptDb) {s : StoredAttempt}
    → (transition rt id expected AttemptState.in_flight at db).0 ≡ ok s
    → let db' = (transition rt id expected AttemptState.in_flight at db).1 in
      (s.entry.attempt_id ≡ id)
      × (s.entry.state ≡ AttemptState.in_flight)
      × IsValid rt s.entry
      × (started id db.tables ≡ false)
      × (started id db'.tables ≡ true)
unfolding transition started
transition-claims rt id expected at db h =
    let committed =
      write-committed ErrorClass.attempt_store translate
        (transition_operation rt id expected AttemptState.in_flight at) db h in
    let step =
      transition_operation-Transitioned rt id expected AttemptState.in_flight at db.tables
        committed in
    (
      step.shown.id ∙ row_of-id id db.tables step.found,
      step.shown.state,
      step.valid,
      ap started_row step.found ∙ ground (arith, step.permitted),
      ap started_row (
          ap (row_of id) step.table
          ∙ row_of-update_rows id expected AttemptState.in_flight at.instant db.tables step.found
              step.current),
    )

-- An attempt that `create` returns has the identifier that was asked for.
pub create-id :
    (rt : Runtime) (r : AttemptRecord) (db : AttemptDb) {s : StoredAttempt}
    → (create rt r db).0 ≡ ok s
    → s.entry.attempt_id ≡ r.attempt_id
unfolding create
create-id rt r db {s} h = elim (Bool-cases (same r.state AttemptState.prepared)) [
  | inr late ↦ ground arith
  | inl initial ↦
      let committed =
        write-committed ErrorClass.attempt_store translate (create_operation rt r) db {a = s}
          (ground arith) in
      elim (create_operation-cases rt r db.tables committed) [
        | inl there ↦ there.shown.id ∙ row_of-id r.attempt_id db.tables there.found
        | inr new ↦ new.shown.id
      ]
]

-- A transition that returns has moved a row of the journal.
pub transition-Transitioned :
    (rt : Runtime) (id : String) (expected : ℕ) (target : AttemptState) (at : Datetime)
    (db : AttemptDb) {s : StoredAttempt}
    → (transition rt id expected target at db).0 ≡ ok s
    → Transitioned rt id expected target at db.tables s
        (transition rt id expected target at db).1.tables
unfolding transition
transition-Transitioned rt id expected target at db h =
    transition_operation-Transitioned rt id expected target at db.tables (
      write-committed ErrorClass.attempt_store translate
        (transition_operation rt id expected target at) db h)

-- A transition that raises has left the journal as it was.
pub transition-rollback :
    (rt : Runtime) (id : String) (expected : ℕ) (target : AttemptState) (at : Datetime)
    (db : AttemptDb) {e : Error}
    → (transition rt id expected target at db).0 ≡ err e
    → (transition rt id expected target at db).1.tables ≡ db.tables
unfolding transition
transition-rollback rt id expected target at db h =
    write-rollback ErrorClass.attempt_store translate
      (transition_operation rt id expected target at) db h

-- The row that a transition leaves under its identifier.
pub Transitioned-row :
    (rt : Runtime) (id : String) (expected : ℕ) (target : AttemptState) (at : Datetime)
    (t t' : AttemptTable) {s : StoredAttempt} (step : Transitioned rt id expected target at t s t')
    → row_of id t' ≡ some (moved target at.instant step.row)
Transitioned-row rt id expected target at t t' step =
    ap (row_of id) step.table
    ∙ row_of-update_rows id expected target at.instant t step.found step.current

-- An attempt that `transition` returns is in the state that was asked for.
pub transition-state :
    (rt : Runtime) (id : String) (expected : ℕ) (target : AttemptState) (at : Datetime)
    (db : AttemptDb) {s : StoredAttempt}
    → (transition rt id expected target at db).0 ≡ ok s
    → s.entry.state ≡ target
transition-state rt id expected target at db h =
    (transition-Transitioned rt id expected target at db h).shown.state
