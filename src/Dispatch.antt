-- ===== src/Dispatch.antt =====
-- src/nexus_vector/application/execution_dispatch.py: the boundary at which a provider port is
-- called. The state of a dispatch is the attempt journal, the state of the port (of type `P`, which
-- the port alone reads and writes) and the list of the calls made to the port, the latest first.
-- The mission lookup and the port are protocols, so they are parameters.
pub mod Workers
pub mod Claims
pub mod Exclusive
pub mod Once
pub mod Replies
pub mod Settled
pub mod Outcomes
use nexus_vector_keeperhub.Prelude.{
  ℕ, String, Bool, not, Option, none, some, List, [], ◌∷◌, ◌==◌, find, if◌then◌else◌,
}
use nexus_vector_keeperhub.Errors.{
  Error, ErrorClass, Code, Result, ok, err, fail, map_err, is_attempt_store, is_stale,
}
use nexus_vector_keeperhub.Calls.{Call, ◌>>=◌, ◌>>◌, try, pure, lift, raise}
use nexus_vector_keeperhub.Clock.{Datetime}
use nexus_vector_keeperhub.Runtime.{Runtime}
use nexus_vector_keeperhub.Mission.States.{
  MissionState, EffectState, same_mission_state, same_effect_state,
}
use nexus_vector_keeperhub.Mission.Records.{EffectRecord, StoredMission}
use nexus_vector_keeperhub.Attempt.{AttemptPlan, AttemptRecord, create_initial_execution_attempt}
use nexus_vector_keeperhub.Attempt.States.{AttemptState, same}
use nexus_vector_keeperhub.Persistence.AttemptStore.{
  StoredAttempt, AttemptDb, initialize, create, transition,
}

pub data PortOutcome : Type 0 where
  accepted rejected_final : PortOutcome

-- What `port.execute` comes back with: a port result, any other object, or an exception.
pub data PortReply : Type 0 where
  replied : PortOutcome → PortReply
  not_a_result raised : PortReply

abbrev pub Port : Type 0 → Type 0
Port P = AttemptRecord → P → PortReply × P

pub record World (P : Type 0) : Type 0 where
  pub attempts : AttemptDb
  pub provider : P
  pub calls : List AttemptRecord

abbrev fail_dispatch {ℓ} : {A : Type ℓ} → Code → Result A
fail_dispatch = fail ErrorClass.dispatch

-- The state that an attempt takes after the port has replied.
abbrev pub target_of : PortOutcome → AttemptState
target_of PortOutcome.accepted = AttemptState.provider_acknowledged
target_of PortOutcome.rejected_final = AttemptState.failed_final

-- The guards on the Mission and the effect that stand before any write.
unfoldable pub check_effect : Option EffectRecord → Result (Unit {0})
check_effect none = fail_dispatch Code.effect_not_found
check_effect (some effect) =
    if same_effect_state effect.state EffectState.planned
    then ok tt
    else fail_dispatch Code.effect_not_dispatchable

unfoldable pub check_mission : AttemptPlan → Result (Option StoredMission) → Result (Unit {0})
unfolding check_effect
check_mission plan (err e) = err e
check_mission plan (ok none) = fail_dispatch Code.mission_not_found
check_mission plan (ok (some mission)) =
    if same_mission_state mission.entry.state MissionState.ready_for_execution
    then check_effect (find (λ item. item.effect_id == plan.effect_id) mission.entry.effects)
    else fail_dispatch Code.mission_not_ready_for_execution

-- `except SQLiteExecutionAttemptStoreError as error` around the claim
unfoldable pub claim_error : Error → Error
claim_error e =
    if is_attempt_store e.class
    then (if is_stale e.code
        then record { class = ErrorClass.dispatch; code = Code.reconciliation_required }
        else e)
    else e

-- An exception of the store is dropped; any other would go on.
abbrev drop_store_error {ℓ} : {A : Type ℓ} → Result A → Result (Unit {0})
drop_store_error (ok _) = ok tt
drop_store_error (err e) = if is_attempt_store e.class then ok tt else err e

module _ {P : Type 0} where
  -- A call of the attempt store, on the part of the state that it owns.
  abbrev pub on_attempts : {A : Type 0} → Call AttemptDb A → Call (World P) A
  on_attempts m w = let (r, db) = m w.attempts in (r, record w { attempts = db })

  -- `port.execute(in_flight.record)`
  unfoldable pub call_port : Port P → AttemptRecord → World P → PortReply × World P
  call_port port attempt w =
      let (reply, p) = port attempt w.provider in
      (reply, record w { provider = p; calls = attempt ∷ w.calls })

module _ {P : Type 0} where
  -- an attempt that is not PREPARED any more is not dispatched again
  abbrev claimable : StoredAttempt → Call (World P) StoredAttempt
  claimable current =
      if same current.entry.state AttemptState.prepared
      then pure current
      else raise ErrorClass.dispatch Code.reconciliation_required

module _ {P : Type 0} (rt : Runtime) where
  -- `dispatch` up to the durable PREPARED attempt
  unfoldable pub prepare :
      AttemptPlan → Result (Option StoredMission) → Datetime → Call (World P) StoredAttempt
  prepare plan found at = do
    lift (check_mission plan found)
    on_attempts initialize
    initial ← lift (create_initial_execution_attempt rt plan at)
    current ← on_attempts (create rt initial)
    claimable current

  -- the claim: PREPARED becomes IN_FLIGHT under the revision that was read
  unfoldable pub claim : StoredAttempt → Datetime → Call (World P) StoredAttempt
  claim current at w =
      let (r, w') =
        on_attempts
          (transition rt current.entry.attempt_id current.revision AttemptState.in_flight at) w in
      (map_err claim_error r, w')

  unfoldable pub mark_unknown_best_effort : StoredAttempt → Datetime → Call (World P) (Unit {0})
  mark_unknown_best_effort s at w =
      let (r, w') =
        on_attempts (transition rt s.entry.attempt_id s.revision AttemptState.execution_unknown at)
          w in
      (drop_store_error r, w')

  -- the `except Exception` clause: the outcome is unknown, whatever was raised
  unfoldable pub outcome_unknown : StoredAttempt → Datetime → Call (World P) StoredAttempt
  outcome_unknown s at = do
    mark_unknown_best_effort s at
    raise ErrorClass.dispatch Code.execution_outcome_unknown

  -- `dispatch` after the port has come back
  unfoldable pub settle : PortReply → StoredAttempt → Datetime → Call (World P) StoredAttempt
  settle (PortReply.replied outcome) s at =
      try (on_attempts (transition rt s.entry.attempt_id s.revision (target_of outcome) at)) pure
        (λ _. outcome_unknown s at)
  settle PortReply.not_a_result s at = outcome_unknown s at
  settle PortReply.raised s at = outcome_unknown s at

  unfoldable pub dispatch :
      AttemptPlan → Port P → Result (Option StoredMission) → Datetime → Call (World P) StoredAttempt
  dispatch plan port found at = do
    current ← prepare plan found at
    in_flight ← claim current at
    λ w. let (reply, w') = call_port port in_flight.entry w in settle reply in_flight at w'
