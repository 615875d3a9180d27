-- ===== src/Tests/Plans.antt =====
-- Continuation plans and execution attempts at concrete inputs.
use nexus_vector_keeperhub.Prelude.{
  ◌+◌, ◌≤◌, ◌==◌, if◌then◌else◌, ◌≡◌, ◌≢◌, ◌↔◌, refl, ◌⊎◌, arith, eq_iff, true, false, [], ◌∷◌,
  none, some, All, length, sum_of,
}
use nexus_vector_keeperhub.Prelude.Ids.{full_match, is_hex}
use nexus_vector_keeperhub.Prelude.Sorting.{sort_by, insert_by}
use nexus_vector_keeperhub.Errors.{ok}
use nexus_vector_keeperhub.Clock.{utc, require_utc}
use nexus_vector_keeperhub.Mission.States.{MissionState, EffectState}
use nexus_vector_keeperhub.Mission.Records.{MissionRecord, EffectRecord}
use nexus_vector_keeperhub.Attempt.{
  AttemptRecord, derive_attempt_id, is_effect_id, is_attempt_id, make_record,
  transition_execution_attempt,
}
use nexus_vector_keeperhub.Attempt.States.{AttemptState, allowed}
use nexus_vector_keeperhub.Attempt.Moves.{IsValid, transition_execution_attempt-result}
use nexus_vector_keeperhub.Persistence.AttemptStore.{StoredAttempt}
use nexus_vector_keeperhub.Continuation.{
  Action, Reason, Decision, ContinuationPlan, AttemptLookup, plan, build_plan, check_plan,
  decide_all, decide, validate_effect, classify, classify_state, attempt_state,
  executable_effect_ids, is_manual,
}
use nexus_vector_keeperhub.Continuation.Decisions.{
  action_of, classify_state-total, execute_missing_exactly, skip_verified_exactly,
}
use nexus_vector_keeperhub.Continuation.Totals.{plan_partition}
use nexus_vector_keeperhub.Continuation.Safety.{Distinct}
use nexus_vector_keeperhub.Continuation.Execution.{IsExecutable, plan-IsExecutable}
use nexus_vector_keeperhub.Tests.Fixtures.{
  toy, effect_of, mission_of, effect_a, effect_b, mission_a, prepared_a,
}

-- Two effects, the first of which has a verified attempt.
abbrev pub half_done : MissionRecord
half_done = mission_of MissionState.reconciling (
    effect_of "ben" effect_b 30 EffectState.planned
    ∷ effect_of "anna" effect_a 12 EffectState.chain_confirmed
    ∷ [])

abbrev verified_attempt : StoredAttempt
verified_attempt = record {
  entry = record prepared_a { state = AttemptState.verified };
  revision = 4;
}

abbrev pub journal : AttemptLookup
journal id = if id == prepared_a.attempt_id then ok (some verified_attempt) else ok none

abbrev skip_anna : Decision
skip_anna = record {
  effect_ref = "anna";
  effect_id = effect_a;
  amount_base_units = 12;
  action = Action.skip_verified;
  reason_code = Reason.effect_already_verified;
}

abbrev execute_ben : Decision
execute_ben = record {
  effect_ref = "ben";
  effect_id = effect_b;
  amount_base_units = 30;
  action = Action.execute_missing;
  reason_code = Reason.planned_effect_not_dispatched;
}

abbrev pub half_plan : ContinuationPlan
half_plan = record {
  mission_key = mission_a;
  mission_state = MissionState.reconciling;
  decisions = skip_anna ∷ execute_ben ∷ [];
  total_amount_base_units = 42;
  skipped_amount_base_units = 12;
  executable_amount_base_units = 30;
  unresolved_amount_base_units = 0;
  manual_review_amount_base_units = 0;
}

-- What a run of the planner computes through.
unfoldable plan_runs : Unit {0}
unfolding plan build_plan check_plan decide_all decide validate_effect classify classify_state
    attempt_state sort_by insert_by derive_attempt_id is_effect_id full_match is_hex
plan_runs = tt

pub plans : plan toy journal half_done ≡ ok half_plan
unfolding plan_runs
plans = refl

decides :
    decide_all toy journal mission_a MissionState.reconciling [] []
      (sort_by (λ (e : EffectRecord). e.effect_ref) half_done.effects)
    ≡ ok (skip_anna ∷ execute_ben ∷ [])
unfolding plan_runs
decides = refl

plan-IsExecutable_example :
    Distinct (executable_effect_ids half_plan.decisions)
    × All (IsExecutable toy journal half_done.state) (executable_effect_ids half_plan.decisions)
plan-IsExecutable_example = plan-IsExecutable toy journal half_done half_plan plans

plan_partition_example :
    (p : ContinuationPlan) × (plan toy journal half_done ≡ ok p)
    × (p.decisions ≡ skip_anna ∷ execute_ben ∷ [])
    × (p.skipped_amount_base_units + p.executable_amount_base_units + p.unresolved_amount_base_units
          + p.manual_review_amount_base_units
        ≡ p.total_amount_base_units)
    × (p.total_amount_base_units
        ≡ sum_of (λ (e : EffectRecord). e.amount_base_units) half_done.effects)
    × (length p.decisions ≡ length half_done.effects)
plan_partition_example =
    plan_partition toy journal half_done (skip_anna ∷ execute_ben ∷ []) decides
      (λ h. ground (arith, h, eq_iff mission_a "")) (λ h. ground arith)

classify_state-total_example :
    action_of (classify_state MissionState.completed EffectState.submitted none) ≢ none
classify_state-total_example =
    classify_state-total MissionState.completed EffectState.submitted none

execute_missing_exactly_example :
    (action_of
        (classify_state MissionState.reconciling EffectState.planned (some AttemptState.in_flight))
      ≡ some Action.execute_missing)
    ↔ (((MissionState.reconciling ≡ MissionState.ready_for_execution)
          ⊎ (MissionState.reconciling ≡ MissionState.reconciling))
        × (EffectState.planned ≡ EffectState.planned)
        × ((some AttemptState.in_flight ≡ none)
            ⊎ (some AttemptState.in_flight ≡ some AttemptState.prepared)))
execute_missing_exactly_example =
    execute_missing_exactly MissionState.reconciling EffectState.planned
      (some AttemptState.in_flight)

skip_verified_exactly_example :
    (action_of (
        classify_state MissionState.completed EffectState.chain_confirmed
          (some AttemptState.verified))
      ≡ some Action.skip_verified)
    ↔ ((is_manual MissionState.completed ≡ false)
        × (EffectState.chain_confirmed ≡ EffectState.chain_confirmed)
        × (some AttemptState.verified ≡ some AttemptState.verified))
skip_verified_exactly_example =
    skip_verified_exactly MissionState.completed EffectState.chain_confirmed
      (some AttemptState.verified)

-- What a move of an attempt computes through.
unfoldable attempt_runs : Unit {0}
unfolding transition_execution_attempt make_record derive_attempt_id is_effect_id is_attempt_id
    full_match is_hex require_utc
attempt_runs = tt

prepared_a-made : make_record toy prepared_a ≡ ok prepared_a
unfolding attempt_runs
prepared_a-made = refl

abbrev sent_a : AttemptRecord
sent_a = record prepared_a { state = AttemptState.in_flight; updated_at_utc = utc 9 }

sends : transition_execution_attempt toy prepared_a AttemptState.in_flight (utc 9) ≡ ok sent_a
unfolding attempt_runs
sends = refl

transition_execution_attempt-result_example :
    (sent_a ≡ record prepared_a { state = AttemptState.in_flight; updated_at_utc = utc 9 })
    × (allowed prepared_a.state AttemptState.in_flight ≡ true)
    × (prepared_a.updated_at_utc.instant ≤ 9)
    × IsValid toy sent_a
transition_execution_attempt-result_example =
    transition_execution_attempt-result toy prepared_a AttemptState.in_flight (utc 9) sends
