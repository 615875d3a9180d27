-- ===== src/Attempt/Moves.antt =====
-- What the constructors and the transition of an execution attempt guarantee.
use nexus_vector_keeperhub.Prelude.{◌≤◌, ◌≡◌, true, arith, inl, inr, eq_iff}
use nexus_vector_keeperhub.Errors.{ErrorClass, ok, Result-cases}
use nexus_vector_keeperhub.Clock.{Datetime, require_utc-cases, IsUtc, require_utc-IsUtc}
use nexus_vector_keeperhub.Runtime.{Runtime}
use nexus_vector_keeperhub.Attempt.{
  AttemptPlan, AttemptRecord, make_plan, make_record, derive_attempt_id,
  transition_execution_attempt, is_attempt_id,
}
use nexus_vector_keeperhub.Attempt.States.{AttemptState, allowed}

-- A record that passes the checks of its constructor.
pub record IsValid (rt : Runtime) (r : AttemptRecord) : Type 0 where
  pub id_shape : is_attempt_id r.attempt_id ≡ true
  pub derived : derive_attempt_id rt r.plan.effect_id ≡ ok r.attempt_id
  pub created_utc : IsUtc r.created_at_utc
  pub updated_utc : IsUtc r.updated_at_utc
  pub ordered : r.created_at_utc.instant ≤ r.updated_at_utc.instant

module _ (rt : Runtime) where
  -- The constructor returns its argument.
  pub make_record-same : (r : AttemptRecord) {s : AttemptRecord} → make_record rt r ≡ ok s → s ≡ r
  unfolding make_record
  make_record-same r h = ground arith

  -- The constructor normalises two fields of a plan and keeps the others.
  pub make_plan-keeps :
      (p : AttemptPlan) {q : AttemptPlan}
      → make_plan rt p ≡ ok q
      → (q.mission_key ≡ p.mission_key)
        × (q.effect_id ≡ p.effect_id)
        × (q.request_fingerprint ≡ p.request_fingerprint)
  unfolding make_plan
  make_plan-keeps p h = ground arith

  -- What passes the constructor is valid.
  pub make_record-IsValid :
      (r : AttemptRecord) {s : AttemptRecord} → make_record rt r ≡ ok s → IsValid rt r
  unfolding make_record
  make_record-IsValid r h = elim (Result-cases (derive_attempt_id rt r.plan.effect_id)) [
    | inl (e, underivable) ↦ ground arith
    | inr (d, derives) ↦ elim (require_utc-cases ErrorClass.attempt r.created_at_utc) [
      | inr (e, bad) ↦ ground arith
      | inl created ↦ elim (require_utc-cases ErrorClass.attempt r.updated_at_utc) [
        | inr (e, bad) ↦ ground arith
        | inl updated ↦ record {
          id_shape = ground arith;
          derived = ground (arith, eq_iff r.attempt_id d);
          created_utc = require_utc-IsUtc ErrorClass.attempt r.created_at_utc created;
          updated_utc = require_utc-IsUtc ErrorClass.attempt r.updated_at_utc updated;
          ordered = ground arith;
        }
      ]
    ]
  ]

  -- A move of an attempt that succeeds changed the state and the time only, was permitted by the
  -- table, did not go back in time, and made a valid record.
  pub transition_execution_attempt-result :
      (r : AttemptRecord) (target : AttemptState) (at : Datetime) {s : AttemptRecord}
      → transition_execution_attempt rt r target at ≡ ok s
      → (s ≡ record r { state = target; updated_at_utc = at })
        × (allowed r.state target ≡ true)
        × (r.updated_at_utc.instant ≤ at.instant)
        × IsValid rt s
  unfolding transition_execution_attempt
  transition_execution_attempt-result r target at {s} h =
      elim (require_utc-cases ErrorClass.attempt at) [
        | inr (e, bad) ↦ ground arith
        | inl good ↦
            let moved : AttemptRecord = record r { state = target; updated_at_utc = at } in
            let made : make_record rt moved ≡ ok s = ground arith in
            (
              make_record-same moved made,
              ground arith,
              ground arith,
              rw (make_record-same moved made) (make_record-IsValid moved made),
            )
      ]
