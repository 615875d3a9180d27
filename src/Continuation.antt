-- ===== src/Continuation.antt =====
-- src/nexus_vector/application/continuation_planner.py: what is left to do for each effect of a
-- Mission. The planner is given a Mission record; the attempt lookup is a protocol, so it is a
-- parameter.
pub mod Decisions
pub mod Totals
pub mod Safety
pub mod Execution
use nexus_vector_keeperhub.Prelude.{
  ℕ, ◌+◌, String, Bool, true, false, not, ◌&&◌, ◌||◌, Option, none, some, List, [], ◌∷◌, ◌==◌, any,
  ltb, nat_eq, length, sum_of, if◌then◌else◌,
}
use nexus_vector_keeperhub.Prelude.Sorting.{sort_by}
use nexus_vector_keeperhub.Errors.{ErrorClass, Code, Result, ok, err, fail, ◌>>=◌, ◌>>◌, reject_if}
use nexus_vector_keeperhub.Runtime.{Runtime}
use nexus_vector_keeperhub.Mission.States.{
  MissionState, EffectState, same_mission_state, same_effect_state,
}
use nexus_vector_keeperhub.Mission.Records.{EffectRecord, MissionRecord}
use nexus_vector_keeperhub.Attempt.{derive_attempt_id}
use nexus_vector_keeperhub.Attempt.States.{AttemptState, same}
use nexus_vector_keeperhub.Persistence.AttemptStore.{StoredAttempt}

pub data Action : Type 0 where
  skip_verified execute_missing reconcile_required manual_review : Action

pub data Reason : Type 0 where
  mission_requires_manual_review completed_mission_effect_contradiction : Reason
  effect_already_verified effect_terminal_failure mission_not_ready_for_continuation : Reason
  confirmed_effect_attempt_contradiction confirmed_effect_attempt_not_verified : Reason
  planned_effect_not_dispatched planned_effect_has_ambiguous_attempt : Reason
  planned_effect_attempt_contradiction active_effect_terminal_attempt_contradiction : Reason
  effect_execution_not_final : Reason

abbrev action_position : Action → ℕ
action_position Action.skip_verified = 0
action_position Action.execute_missing = 1
action_position Action.reconcile_required = 2
action_position Action.manual_review = 3

-- `decision.action is action`
abbrev pub same_action : Action → Action → Bool
same_action a b = nat_eq (action_position a) (action_position b)

pub record Decision : Type 0 where
  pub effect_ref : String
  pub effect_id : String
  pub amount_base_units : ℕ
  pub action : Action
  pub reason_code : Reason

pub record ContinuationPlan : Type 0 where
  pub mission_key : String
  pub mission_state : MissionState
  pub decisions : List Decision
  pub total_amount_base_units : ℕ
  pub skipped_amount_base_units : ℕ
  pub executable_amount_base_units : ℕ
  pub unresolved_amount_base_units : ℕ
  pub manual_review_amount_base_units : ℕ

abbrev reject : Bool → Code → Result (Unit {0})
reject bad c = reject_if bad ErrorClass.planning c

-- `mission_state in _MANUAL_MISSION_STATES`
abbrev pub is_manual : MissionState → Bool
is_manual MissionState.mission_conflict = true
is_manual MissionState.blocked = true
is_manual MissionState.manual_review_required = true
is_manual _ = false

-- `mission_state in _EXECUTION_PLANNING_STATES`
abbrev pub is_planning : MissionState → Bool
is_planning MissionState.ready_for_execution = true
is_planning MissionState.reconciling = true
is_planning _ = false

-- `mission_state in _NON_EXECUTABLE_MISSION_STATES`
abbrev pub is_non_executable : MissionState → Bool
is_non_executable MissionState.received = true
is_non_executable MissionState.validated = true
is_non_executable MissionState.persisted = true
is_non_executable MissionState.executing = true
is_non_executable MissionState.verifying = true
is_non_executable MissionState.execution_unknown = true
is_non_executable MissionState.verification_failed = true
is_non_executable _ = false

-- `effect.state in {EffectState.FAILED_FINAL, EffectState.BLOCKED}`
abbrev pub is_failed_effect : EffectState → Bool
is_failed_effect EffectState.failed_final = true
is_failed_effect EffectState.blocked = true
is_failed_effect _ = false

-- `effect.state in _RECONCILE_EFFECT_STATES`
abbrev pub is_reconcile_effect : EffectState → Bool
is_reconcile_effect EffectState.reserved = true
is_reconcile_effect EffectState.submitted = true
is_reconcile_effect EffectState.execution_unknown = true
is_reconcile_effect _ = false

-- `attempt_state in _RECONCILE_ATTEMPT_STATES`
abbrev pub is_reconcile_attempt : Option AttemptState → Bool
is_reconcile_attempt (some AttemptState.in_flight) = true
is_reconcile_attempt (some AttemptState.provider_acknowledged) = true
is_reconcile_attempt (some AttemptState.execution_unknown) = true
is_reconcile_attempt _ = false

-- `attempt_state in {ExecutionAttemptState.FAILED_FINAL, ExecutionAttemptState.BLOCKED}`
abbrev pub is_failed_attempt : Option AttemptState → Bool
is_failed_attempt (some AttemptState.failed_final) = true
is_failed_attempt (some AttemptState.blocked) = true
is_failed_attempt _ = false

-- `attempt_state is state`
abbrev pub attempt_is : Option AttemptState → AttemptState → Bool
attempt_is none s = false
attempt_is (some a) s = same a s

-- `attempt is None`
abbrev pub is_missing : Option AttemptState → Bool
is_missing none = true
is_missing (some a) = false

-- `_classify`, from the state of the attempt
unfoldable pub classify_state :
    MissionState → EffectState → Option AttemptState → Result (Action × Reason)
classify_state m e a =
    if is_manual m
    then ok (Action.manual_review, mission_requires_manual_review)
    else if same_mission_state m MissionState.completed
        && not (same_effect_state e EffectState.chain_confirmed)
    then ok (Action.manual_review, completed_mission_effect_contradiction)
    else if is_non_executable m
    then (if same_effect_state e EffectState.chain_confirmed && attempt_is a AttemptState.verified
        then ok (Action.skip_verified, effect_already_verified)
        else if is_failed_effect e
        then ok (Action.manual_review, effect_terminal_failure)
        else ok (Action.reconcile_required, mission_not_ready_for_continuation))
    else if not (is_planning m) && not (same_mission_state m MissionState.completed)
    then fail ErrorClass.planning Code.unclassified_mission_state
    else if same_effect_state e EffectState.chain_confirmed
    then (if attempt_is a AttemptState.verified
        then ok (Action.skip_verified, effect_already_verified)
        else if is_failed_attempt a
        then ok (Action.manual_review, confirmed_effect_attempt_contradiction)
        else ok (Action.reconcile_required, confirmed_effect_attempt_not_verified))
    else if same_effect_state e EffectState.planned
    then (if is_missing a || attempt_is a AttemptState.prepared
        then ok (Action.execute_missing, planned_effect_not_dispatched)
        else if is_reconcile_attempt a
        then ok (Action.reconcile_required, planned_effect_has_ambiguous_attempt)
        else ok (Action.manual_review, planned_effect_attempt_contradiction))
    else if is_reconcile_effect e
    then (if is_failed_attempt a
        then ok (Action.manual_review, active_effect_terminal_attempt_contradiction)
        else ok (Action.reconcile_required, effect_execution_not_final))
    else if is_failed_effect e
    then ok (Action.manual_review, effect_terminal_failure)
    else fail ErrorClass.planning Code.unclassified_effect_state

-- The checks of `_classify` on the attempt that was found.
unfoldable pub attempt_state :
    String → EffectRecord → Option StoredAttempt → Result (Option AttemptState)
attempt_state mission_key effect none = ok none
attempt_state mission_key effect (some s) = do
  reject (not (s.entry.plan.effect_id == effect.effect_id)) Code.attempt_effect_mismatch
  reject (not (s.entry.plan.mission_key == mission_key)) Code.attempt_mission_mismatch
  ok (some s.entry.state)

unfoldable pub classify :
    String → MissionState → EffectRecord → Option StoredAttempt → Result Decision
classify mission_key state effect attempt = do
  a ← attempt_state mission_key effect attempt
  c ← classify_state state effect.state a
  ok (record {
    effect_ref = effect.effect_ref;
    effect_id = effect.effect_id;
    amount_base_units = effect.amount_base_units;
    action = c.0;
    reason_code = c.1;
  })

-- `x in seen`
abbrev pub contains : String → List String → Bool
contains x seen = any (λ y. y == x) seen

unfoldable pub validate_effect :
    EffectRecord → String → List String → List String → Result (Unit {0})
validate_effect effect mission_key seen_refs seen_ids = do
  reject (effect.effect_ref == "") Code.invalid_effect_ref
  reject (effect.effect_id == "") Code.invalid_effect_id
  reject (ltb effect.amount_base_units 1) Code.invalid_effect_amount
  reject (not (effect.mission_key == mission_key)) Code.effect_mission_key_mismatch
  reject (contains effect.effect_ref seen_refs) Code.duplicate_effect_ref
  reject (contains effect.effect_id seen_ids) Code.duplicate_effect_id
  ok tt

-- `AttemptLookup.get`
abbrev pub AttemptLookup : Type 0
AttemptLookup = String → Result (Option StoredAttempt)

module _ (rt : Runtime) (lookup : AttemptLookup) where
  unfoldable pub decide : String → MissionState → EffectRecord → Result Decision
  decide mission_key state effect = do
    id ← derive_attempt_id rt effect.effect_id
    attempt ← lookup id
    classify mission_key state effect attempt

  -- The loop of `plan` over the sorted effects, with the two sets of what was seen.
  unfoldable pub decide_all :
      String → MissionState → List String → List String → List EffectRecord → Result (List Decision)
  decide_all key state refs ids [] = ok []
  decide_all key state refs ids (effect ∷ effects) = do
    validate_effect effect key refs ids
    decision ← decide key state effect
    rest ← decide_all key state (effect.effect_ref ∷ refs) (effect.effect_id ∷ ids) effects
    ok (decision ∷ rest)

-- `amount_for` of `_build_plan`
abbrev pub amount_for : Action → List Decision → ℕ
amount_for action = sum_of (λ d. if same_action d.action action then d.amount_base_units else 0)

unfoldable pub build_plan : String → MissionState → List Decision → ContinuationPlan
build_plan key state decisions = record {
  mission_key = key;
  mission_state = state;
  decisions = decisions;
  total_amount_base_units = sum_of (λ d. d.amount_base_units) decisions;
  skipped_amount_base_units = amount_for Action.skip_verified decisions;
  executable_amount_base_units = amount_for Action.execute_missing decisions;
  unresolved_amount_base_units = amount_for Action.reconcile_required decisions;
  manual_review_amount_base_units = amount_for Action.manual_review decisions;
}

-- The two checks of `plan` on its result.
unfoldable pub check_plan : List EffectRecord → ContinuationPlan → Result ContinuationPlan
check_plan effects r = do
  reject
      (not (
        nat_eq
          (r.skipped_amount_base_units + r.executable_amount_base_units
            + r.unresolved_amount_base_units + r.manual_review_amount_base_units)
          r.total_amount_base_units))
      Code.continuation_total_mismatch
  reject (not (nat_eq (length r.decisions) (length effects))) Code.effect_classification_incomplete
  ok r

abbrev is_empty {ℓ} : {A : Type ℓ} → List A → Bool
is_empty [] = true
is_empty (x ∷ xs) = false

unfoldable pub plan : Runtime → AttemptLookup → MissionRecord → Result ContinuationPlan
plan rt lookup mission = do
  reject (mission.mission_key == "") Code.invalid_mission_key
  reject (is_empty mission.effects) Code.invalid_effects
  decisions ←
      decide_all rt lookup mission.mission_key mission.state [] []
        (sort_by (λ (e : EffectRecord). e.effect_ref) mission.effects)
  check_plan mission.effects (build_plan mission.mission_key mission.state decisions)

-- `executable_effect_ids`
unfoldable pub executable_effect_ids : List Decision → List String
executable_effect_ids [] = []
executable_effect_ids (d ∷ ds) =
    let rest = executable_effect_ids ds in
    if same_action d.action Action.execute_missing then d.effect_id ∷ rest else rest
