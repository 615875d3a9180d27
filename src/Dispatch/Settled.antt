-- ===== src/Dispatch/Settled.antt =====
-- What `dispatch` makes of the answer of the port, and what it leaves in the journal.
use nexus_vector_keeperhub.Prelude.{◌≡◌, ◌⊎◌, refl, ◌∙◌, inl, inr, some, arith, String}
use nexus_vector_keeperhub.Errors.{ErrorClass, Code, Result, ok, err, Result-cases}
use nexus_vector_keeperhub.Clock.{Datetime}
use nexus_vector_keeperhub.Runtime.{Runtime}
use nexus_vector_keeperhub.Attempt.{AttemptRecord}
use nexus_vector_keeperhub.Attempt.States.{AttemptState}
use nexus_vector_keeperhub.Persistence.AttemptStore.{
  StoredAttempt, AttemptRow, AttemptTable, row_of, transition,
}
use nexus_vector_keeperhub.Persistence.AttemptStore.Rows.{Shows, row_of-id}
use nexus_vector_keeperhub.Persistence.AttemptStore.Moves.{moved}
use nexus_vector_keeperhub.Persistence.AttemptStore.Progress.{
  transition-Transitioned, transition-rollback, Transitioned-row,
}
use nexus_vector_keeperhub.Persistence.AttemptStore.Raises.{transition-class}
use nexus_vector_keeperhub.Dispatch.{
  PortReply, PortOutcome, World, claim, mark_unknown_best_effort, outcome_unknown, settle,
  target_of,
}

-- What an attempt becomes for each outcome of the port.
abbrev pub IsOutcome : PortReply → AttemptState → Type 0
IsOutcome reply st =
    ((reply ≡ PortReply.replied PortOutcome.accepted) × (st ≡ AttemptState.provider_acknowledged))
    ⊎ ((reply ≡ PortReply.replied PortOutcome.rejected_final) × (st ≡ AttemptState.failed_final))

-- The attempt that was sent came back with the outcome that the port replied, and the journal holds it
-- as it came back.
pub record Returned (sent : AttemptRecord) (reply : PortReply) (s : StoredAttempt)
    (t : AttemptTable) : Type 0 where
  pub id : s.entry.attempt_id ≡ sent.attempt_id
  pub outcome : IsOutcome reply s.entry.state
  pub row : AttemptRow
  pub journaled : row_of sent.attempt_id t ≡ some row
  pub shown : Shows s row

-- The journal holds the attempt without an outcome.
abbrev pub IsOpen : String → AttemptTable → Type 0
IsOpen id t =
    (row : AttemptRow) × (row_of id t ≡ some row)
    × ((row.state ≡ AttemptState.in_flight) ⊎ (row.state ≡ AttemptState.execution_unknown))

-- How `dispatch` reports what the port replied to an attempt.
abbrev pub Reports : AttemptRecord → PortReply → Result StoredAttempt → AttemptTable → Type 0
Reports sent reply r t =
    ((s : StoredAttempt) × (r ≡ ok s) × Returned sent reply s t)
    ⊎ ((r ≡ err (record { class = ErrorClass.dispatch; code = Code.execution_outcome_unknown }))
        × IsOpen sent.attempt_id t)

target_of-IsOutcome : (o : PortOutcome) → IsOutcome (PortReply.replied o) (target_of o)
target_of-IsOutcome PortOutcome.accepted = inl (refl, refl)
target_of-IsOutcome PortOutcome.rejected_final = inr (refl, refl)

module _ {P : Type 0} (rt : Runtime) where
  -- The claim leaves the attempt IN_FLIGHT in the journal.
  pub claim-IsOpen :
      (s : StoredAttempt) (at : Datetime) (w : World P) {s' : StoredAttempt}
      → (claim rt s at w).0 ≡ ok s'
      → IsOpen s.entry.attempt_id (claim rt s at w).1.attempts.tables
  unfolding claim
  claim-IsOpen s at w h =
      let moves =
        transition rt s.entry.attempt_id s.revision AttemptState.in_flight at w.attempts in
      elim (Result-cases moves.0) [
        | inl (e, raised) ↦ absurd (ground (arith, h, raised))
        | inr (x, returned) ↦
            let step =
              transition-Transitioned rt s.entry.attempt_id s.revision AttemptState.in_flight at
                w.attempts returned in
            (
              moved AttemptState.in_flight at.instant step.row,
              Transitioned-row rt s.entry.attempt_id s.revision AttemptState.in_flight at
                  w.attempts.tables moves.1.tables step,
              inl refl,
            )
      ]

  -- The handler of `dispatch` always ends in one and the same exception, and records no outcome.
  outcome_unknown-raises :
      (s : StoredAttempt) (at : Datetime) (w : World P)
      → (outcome_unknown rt s at w).0
        ≡ err (record { class = ErrorClass.dispatch; code = Code.execution_outcome_unknown })
  unfolding outcome_unknown mark_unknown_best_effort
  outcome_unknown-raises s at w =
      elim (Result-cases
        (transition rt s.entry.attempt_id s.revision AttemptState.execution_unknown at
          w.attempts).0) [
            | inl (e, raised) ↦ ground (
              arith,
              transition-class rt s.entry.attempt_id s.revision AttemptState.execution_unknown at
                  w.attempts raised,
            )
            | inr (x, done) ↦ ground arith
          ]

  outcome_unknown-attempts :
      (s : StoredAttempt) (at : Datetime) (w : World P)
      → (outcome_unknown rt s at w).1.attempts
        ≡ (transition rt s.entry.attempt_id s.revision AttemptState.execution_unknown at
            w.attempts).1
  unfolding outcome_unknown mark_unknown_best_effort
  outcome_unknown-attempts s at w =
      elim (Result-cases
        (transition rt s.entry.attempt_id s.revision AttemptState.execution_unknown at
          w.attempts).0) [
            | inl (e, raised) ↦ ground (
              arith,
              transition-class rt s.entry.attempt_id s.revision AttemptState.execution_unknown at
                  w.attempts raised,
            )
            | inr (x, done) ↦ ground arith
          ]

  outcome_unknown-IsOpen :
      (s : StoredAttempt) (at : Datetime) (w : World P)
      → IsOpen s.entry.attempt_id w.attempts.tables
      → IsOpen s.entry.attempt_id (outcome_unknown rt s at w).1.attempts.tables
  outcome_unknown-IsOpen s at w pending =
      let id = s.entry.attempt_id in
      let moves = transition rt id s.revision AttemptState.execution_unknown at w.attempts in
      rw (outcome_unknown-attempts s at w) (elim (Result-cases moves.0) [
        | inl (e, raised) ↦
            rw
              (transition-rollback rt id s.revision AttemptState.execution_unknown at w.attempts
                raised)
              pending
        | inr (x, returned) ↦
            let step =
              transition-Transitioned rt id s.revision AttemptState.execution_unknown at w.attempts
                returned in
            (
              moved AttemptState.execution_unknown at.instant step.row,
              Transitioned-row rt id s.revision AttemptState.execution_unknown at w.attempts.tables
                  moves.1.tables step,
              inr refl,
            )
      ])

  outcome_unknown-Reports :
      (reply : PortReply) (s : StoredAttempt) (at : Datetime) (w : World P)
      → IsOpen s.entry.attempt_id w.attempts.tables
      → Reports s.entry reply
          (outcome_unknown rt s at w).0
          (outcome_unknown rt s at w).1.attempts.tables
  outcome_unknown-Reports reply s at w pending =
      inr (outcome_unknown-raises s at w, outcome_unknown-IsOpen s at w pending)

  pub settle-Reports :
      (reply : PortReply) (s : StoredAttempt) (at : Datetime) (w : World P)
      → IsOpen s.entry.attempt_id w.attempts.tables
      → Reports s.entry reply (settle rt reply s at w).0 (settle rt reply s at w).1.attempts.tables
  unfolding settle
  settle-Reports PortReply.not_a_result s at w pending =
      outcome_unknown-Reports PortReply.not_a_result s at w pending
  settle-Reports PortReply.raised s at w pending =
      outcome_unknown-Reports PortReply.raised s at w pending
  settle-Reports (PortReply.replied o) s at w pending =
      let id = s.entry.attempt_id in
      let moves = transition rt id s.revision (target_of o) at w.attempts in
      elim (Result-cases moves.0) [
        | inl (e, raised) ↦
            let kept = transition-rollback rt id s.revision (target_of o) at w.attempts raised in
            rw raised (
              outcome_unknown-Reports (PortReply.replied o) s at (record w { attempts = moves.1 })
                (rw kept pending))
        | inr (x, done) ↦
            let step = transition-Transitioned rt id s.revision (target_of o) at w.attempts done in
            rw done (
              inl (
                x,
                refl,
                record {
                  id = step.shown.id ∙ row_of-id id w.attempts.tables step.found;
                  outcome = rw step.shown.state (target_of-IsOutcome o);
                  row = moved (target_of o) at.instant step.row;
                  journaled =
                      Transitioned-row rt id s.revision (target_of o) at w.attempts.tables
                        moves.1.tables step;
                  shown = step.shown;
                },
              ))
      ]
