-- ===== src/Persistence/AttemptStore/Moves.antt =====
-- What the two writing operations of the attempt store do, on every branch that returns.
use mathlib.Core.Path.{subst}
use nexus_vector_keeperhub.Prelude.{
  ℕ, ◌+◌, ◌≤◌, String, ◌≡◌, sym, ap, ◌∙◌, inl, inr, some, arith, true, Option-cases, some_injective,
}
use nexus_vector_keeperhub.Errors.{ErrorClass, ok, Result-cases}
use nexus_vector_keeperhub.Clock.{Datetime, IsUtc}
use nexus_vector_keeperhub.Runtime.{Runtime}
use nexus_vector_keeperhub.Attempt.{AttemptRecord, transition_execution_attempt}
use nexus_vector_keeperhub.Attempt.States.{AttemptState, allowed}
use nexus_vector_keeperhub.Attempt.Moves.{IsValid, transition_execution_attempt-result}
use nexus_vector_keeperhub.Persistence.AttemptStore.{
  StoredAttempt, AttemptRow, AttemptTable, row_of, load, update_rows, rewrite, move_current,
  transition_operation,
}
use nexus_vector_keeperhub.Persistence.AttemptStore.Rows.{Shows, row_of-update_rows, load-Shows}

-- A row after a move.
abbrev pub moved : AttemptState → ℕ → AttemptRow → AttemptRow
moved st at row = record row { state = st; updated_at = at; revision = row.revision + 1 }

-- A transition that returned: it was made on the current revision of a row, it is a move that the
-- state machine permits, at a time that is not before the last, and it rewrote that row.
pub record Transitioned (rt : Runtime) (id : String) (expected : ℕ) (target : AttemptState)
    (at : Datetime) (t : AttemptTable) (s : StoredAttempt) (t' : AttemptTable) : Type 0 where
  pub row : AttemptRow
  pub found : row_of id t ≡ some row
  pub current : row.revision ≡ expected
  pub permitted : allowed row.state target ≡ true
  pub later : row.updated_at ≤ at.instant
  pub table : t' ≡ update_rows id expected target at.instant t
  pub shown : Shows s (moved target at.instant row)
  pub valid : IsValid rt s.entry

module _ (rt : Runtime) where
  -- The row that is read back after the update is the moved row.
  load-update_rows :
      (id : String) (expected : ℕ) (st : AttemptState) (at : ℕ) (t : AttemptTable)
      (row : AttemptRow) {s : StoredAttempt}
      → row_of id t ≡ some row
      → row.revision ≡ expected
      → load rt id (update_rows id expected st at t) ≡ ok (some s)
      → Shows s (moved st at row) × IsValid rt s.entry
  load-update_rows id expected st at t row {s} found current h =
      let back = load-Shows rt id (update_rows id expected st at t) h in
      (
        subst (Shows s)
            (some_injective (sym back.1 ∙ row_of-update_rows id expected st at t found current))
            back.2,
        back.3,
      )

  -- An update that returned wrote the new state and time, and read the row back.
  rewrite-result :
      (id : String) (expected : ℕ) (next : AttemptRecord) (t : AttemptTable) {s : StoredAttempt}
      {t' : AttemptTable}
      → IsUtc next.updated_at_utc
      → rewrite rt id expected next t ≡ ok (s, t')
      → (t' ≡ update_rows id expected next.state next.updated_at_utc.instant t)
        × (load rt id (update_rows id expected next.state next.updated_at_utc.instant t)
            ≡ ok (some s))
  unfolding rewrite
  rewrite-result id expected next t {s} {t'} stamp h =
      let new = update_rows id expected next.state next.updated_at_utc.instant t in
      elim (Result-cases (load rt id new)) [
        | inl (e, unread) ↦ ground (arith, stamp ErrorClass.attempt_store)
        | inr (found, loaded) ↦ elim (Option-cases found) [
          | inl missing ↦ ground (arith, stamp ErrorClass.attempt_store)
          | inr (stored, there) ↦ (
            ground (arith, stamp ErrorClass.attempt_store),
            ground (arith, stamp ErrorClass.attempt_store),
          )
        ]
      ]

  move_current-Transitioned :
      (id : String) (expected : ℕ) (target : AttemptState) (at : Datetime) (t : AttemptTable)
      (current : StoredAttempt) {s : StoredAttempt} {t' : AttemptTable}
      → load rt id t ≡ ok (some current)
      → move_current rt id expected target at t current ≡ ok (s, t')
      → Transitioned rt id expected target at t s t'
  move_current-Transitioned id expected target at t current {s} {t'} loaded h =
      elim (Result-cases (transition_execution_attempt rt current.entry target at)) [
        | inl (e, refused) ↦ ground arith
        | inr (next, done) ↦
            let old = load-Shows rt id t loaded in
            let step = transition_execution_attempt-result rt current.entry target at done in
            let fresh : current.revision ≡ expected = ground arith in
            let not_before : old.0.updated_at ≤ at.instant =
              omega (arith, step.2, ap (λ (d : Datetime). d.instant) old.2.updated) in
            let written = rewrite-result id expected next t step.3.updated_utc (ground arith) in
            let state : next.state ≡ target = ap (λ (r : AttemptRecord). r.state) step.0 in
            let time : next.updated_at_utc.instant ≡ at.instant =
              ap (λ (r : AttemptRecord). r.updated_at_utc.instant) step.0 in
            let reread : load rt id (update_rows id expected target at.instant t) ≡ ok (some s) =
              rw (← state, ← time) written.1 in
            let after =
              load-update_rows id expected target at.instant t old.0 old.1
                (sym old.2.revision ∙ fresh) reread in
            record {
              row = old.0;
              found = old.1;
              current = sym old.2.revision ∙ fresh;
              permitted = rw (← old.2.state) step.1;
              later = not_before;
              table = rw (← state, ← time) written.0;
              shown = after.0;
              valid = after.1;
            }
      ]

  pub transition_operation-Transitioned :
      (id : String) (expected : ℕ) (target : AttemptState) (at : Datetime) (t : AttemptTable)
      {s : StoredAttempt} {t' : AttemptTable}
      → transition_operation rt id expected target at t ≡ ok (s, t')
      → Transitioned rt id expected target at t s t'
  unfolding transition_operation
  transition_operation-Transitioned id expected target at t {s} {t'} h =
      elim (Result-cases (load rt id t)) [
        | inl (e, unread) ↦ ground arith
        | inr (found, loaded) ↦ elim (Option-cases found) [
          | inl missing ↦ ground arith
          | inr (current, there) ↦
              move_current-Transitioned id expected target at t current (loaded ∙ ap ok there)
                (ground arith)
        ]
      ]
