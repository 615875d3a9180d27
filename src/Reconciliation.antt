-- ===== src/Reconciliation.antt =====
-- src/nexus_vector/application/execution_reconciliation.py: recovery of an ambiguous attempt from
-- independent evidence. The state is the two stores. The verifier is a protocol, so it is a
-- parameter, which answers with an observation, or with nothing where it raises or answers with
-- another object.
pub mod Steps
pub mod Soundness
pub mod Judgement
pub mod Report
use nexus_vector_keeperhub.Prelude.{
  ℕ, zero, suc, String, Bool, true, false, not, ◌&&◌, ◌||◌, Option, none, some, List, [], ◌∷◌, ◌==◌,
  ltb, nat_eq, find, any, all, if◌then◌else◌,
}
use nexus_vector_keeperhub.Errors.{
  Error, ErrorClass, Code, Result, ok, err, is_attempt_store, is_stale,
}
use nexus_vector_keeperhub.Calls.{Call, ◌>>=◌, ◌>>◌, try, pure, lift, raise}
use nexus_vector_keeperhub.Clock.{Datetime, require_utc, later}
use nexus_vector_keeperhub.Runtime.{Runtime}
use nexus_vector_keeperhub.Mission.States.{
  MissionState, EffectState, same_mission_state, same_effect_state,
}
use nexus_vector_keeperhub.Mission.Records.{EffectRecord, MissionRecord, StoredMission}
use nexus_vector_keeperhub.Attempt.{AttemptRecord}
use nexus_vector_keeperhub.Attempt.States.{AttemptState, same}
use nexus_vector_keeperhub.Persistence.AttemptStore.{StoredAttempt, AttemptDb, transition}
use nexus_vector_keeperhub.Persistence.AttemptStore
use nexus_vector_keeperhub.Persistence.MissionTables.{MissionDb}
use nexus_vector_keeperhub.Persistence.MissionStore.{move_mission, move_effect}
use nexus_vector_keeperhub.Persistence.MissionStore
use nexus_vector_keeperhub.Evidence.{
  Observation, ObservationStatus, ObservedTransfer, normalize_expected_sender,
  derive_evidence_fingerprint,
}
use Steps.{
  Stores, on_attempts, on_missions, fail_reconciliation, require_some, max_cas_steps, find_effect,
  effect_named, economic_match, keeps_state, is_failed, is_source, next_effect_state, is_confirmed,
  is_dead, is_pending, transition_attempt, transition_mission, transition_effect, mark_unknown,
  mark_verified, block_attempt, ensure_reconciling, mark_manual_review, confirm_effect,
  settle_mission, project_confirmed_effect,
}

pub data Outcome : Type 0 where
  verified unresolved blocked : Outcome

pub record Reconciled : Type 0 where
  pub outcome : Outcome
  pub attempt : StoredAttempt
  pub mission : StoredMission
  pub evidence_fingerprint : Option String

abbrev pub Verifier : Type 0
Verifier = AttemptRecord → Option Observation

module _ (rt : Runtime) where
  -- What `reconcile` does with a transfer that was observed.
  unfoldable pub judge_transfer :
      StoredAttempt
      → StoredMission
      → EffectRecord
      → String
      → ℕ
      → Datetime
      → ObservedTransfer
      → Call Stores Reconciled
  judge_transfer attempt mission effect sender minimum at transfer =
      if not (economic_match effect sender transfer)
      then (do
        attempt' ← block_attempt rt attempt at
        mission' ← mark_manual_review rt mission at
        pure (record {
          outcome = Outcome.blocked;
          attempt = attempt';
          mission = mission';
          evidence_fingerprint = none;
        }))
      else if ltb transfer.confirmations minimum
      then (do
        attempt' ← mark_unknown rt attempt at
        pure (record {
          outcome = Outcome.unresolved;
          attempt = attempt';
          mission = mission;
          evidence_fingerprint = none;
        }))
      else if is_failed attempt.entry.state
      then (do
        mission' ← mark_manual_review rt mission at
        pure (record {
          outcome = Outcome.blocked;
          attempt = attempt;
          mission = mission';
          evidence_fingerprint = none;
        }))
      else do
        mission' ← project_confirmed_effect rt mission effect.effect_ref at
        attempt' ← mark_verified rt attempt at
        pure (record {
          outcome = Outcome.verified;
          attempt = attempt';
          mission = mission';
          evidence_fingerprint = some (derive_evidence_fingerprint rt transfer);
        })

  unfoldable pub unresolved_outcome :
      StoredAttempt → StoredMission → Datetime → Call Stores Reconciled
  unresolved_outcome attempt mission at = do
    attempt' ← mark_unknown rt attempt at
    pure (record {
      outcome = Outcome.unresolved;
      attempt = attempt';
      mission = mission;
      evidence_fingerprint = none;
    })

  unfoldable pub unknown_outcome : StoredAttempt → Datetime → Call Stores Reconciled
  unknown_outcome attempt at = do
    attempt' ← mark_unknown rt attempt at
    fail_reconciliation Code.verification_outcome_unknown

  -- What `reconcile` does with the answer of the verifier.
  unfoldable pub judge :
      StoredAttempt
      → StoredMission
      → EffectRecord
      → String
      → ℕ
      → Datetime
      → Option Observation
      → Call Stores Reconciled
  judge attempt mission effect sender minimum at none = unknown_outcome attempt at
  judge attempt mission effect sender minimum at (some o) = elim o.status [
    | ObservationStatus.not_found ↦ unresolved_outcome attempt mission at
    | ObservationStatus.ambiguous ↦ unresolved_outcome attempt mission at
    | ObservationStatus.verified_transfer ↦ elim o.transfer [
      | none ↦ unknown_outcome attempt at
      | some transfer ↦ judge_transfer attempt mission effect sender minimum at transfer
    ]
  ]

  unfoldable pub reconcile : String → String → ℕ → Verifier → Datetime → Call Stores Reconciled
  reconcile attempt_id expected_sender minimum verifier observed_at_utc = do
    sender ← lift (normalize_expected_sender expected_sender)
    at ← lift (require_utc ErrorClass.reconciliation observed_at_utc)
    if ltb minimum 1 then fail_reconciliation Code.invalid_minimum_confirmations else do
      found ← on_attempts (AttemptStore.get rt attempt_id)
      attempt ← require_some Code.attempt_not_found found
      looked_up ← on_missions (MissionStore.get rt attempt.entry.plan.mission_key)
      mission ← require_some Code.mission_not_found looked_up
      effect ← find_effect mission attempt.entry.plan.effect_id
      if same attempt.entry.state AttemptState.verified && is_confirmed effect
          then pure (record {
            outcome = Outcome.verified;
            attempt = attempt;
            mission = mission;
            evidence_fingerprint = none;
          })
          else judge attempt mission effect sender minimum at (verifier attempt.entry)
