-- ===== src/Doctor.antt =====
-- src/nexus_vector/application/execution_doctor.py: the diagnosis of a Mission, from the decisions of
-- the planner and what the provider and the chain were observed to hold. A mapping of observations
-- is a list of its items, in which `observations[key]` is the first one with the key.
pub mod Verdicts
pub mod Overall
pub mod Report
pub mod Safety
use nexus_vector_keeperhub.Prelude.{
  ℕ, String, Bool, true, false, not, ◌&&◌, ◌||◌, Option, none, some, List, [], ◌∷◌, ◌==◌, any, all,
  find, map, ltb, nat_eq, if◌then◌else◌,
}
use nexus_vector_keeperhub.Errors.{ErrorClass, Code, Result, ok, fail, ◌>>=◌, ◌>>◌, reject_if}
use nexus_vector_keeperhub.Continuation.{Action, Decision, ContinuationPlan, same_action}

pub data ProviderState : Type 0 where
  not_queried not_found accepted rejected_final unknown : ProviderState

pub data ChainState : Type 0 where
  not_queried not_found confirmed mismatch unknown : ChainState

pub data DoctorAction : Type 0 where
  skip_verified execute_missing reconcile wait_for_confirmations manual_review complete :
      DoctorAction

pub data DiagnosisCode : Type 0 where
  chain_economic_mismatch local_state_requires_manual_review : DiagnosisCode
  local_verified_chain_not_found local_verified_provider_rejected : DiagnosisCode
  verified_effect_confirmations_below_policy local_verified_never_resend : DiagnosisCode
  chain_confirmations_below_policy chain_confirmed_local_projection_pending : DiagnosisCode
  provider_final_local_active_contradiction execution_outcome_not_durably_resolved : DiagnosisCode
  unexpected_chain_confirmation_below_policy chain_effect_exists_local_missing : DiagnosisCode
  provider_effect_may_exist_local_missing chain_state_unknown : DiagnosisCode
  provider_rejection_without_durable_attempt : DiagnosisCode
  no_durable_or_external_execution_evidence : DiagnosisCode

pub record EffectObservation : Type 0 where
  pub effect_id : String
  pub provider_state : ProviderState
  pub chain_state : ChainState
  pub confirmations : ℕ

pub record EffectDiagnosis : Type 0 where
  pub effect_ref : String
  pub effect_id : String
  pub action : DoctorAction
  pub diagnosis_code : DiagnosisCode

pub record DoctorReport : Type 0 where
  pub mission_key : String
  pub next_action : DoctorAction
  pub diagnoses : List EffectDiagnosis
  pub total_amount_base_units : ℕ
  pub skipped_amount_base_units : ℕ
  pub executable_amount_base_units : ℕ
  pub unresolved_amount_base_units : ℕ
  pub manual_review_amount_base_units : ℕ

abbrev reject : Bool → Code → Result (Unit {0})
reject bad c = reject_if bad ErrorClass.doctor c

abbrev chain_position : ChainState → ℕ
chain_position ChainState.not_queried = 0
chain_position ChainState.not_found = 1
chain_position ChainState.confirmed = 2
chain_position ChainState.mismatch = 3
chain_position ChainState.unknown = 4

-- `chain is state`
abbrev pub same_chain : ChainState → ChainState → Bool
same_chain a b = nat_eq (chain_position a) (chain_position b)

abbrev pub is_rejected : ProviderState → Bool
is_rejected ProviderState.rejected_final = true
is_rejected _ = false

-- `provider in {ProviderObservationState.ACCEPTED, ProviderObservationState.UNKNOWN}`
abbrev pub may_exist : ProviderState → Bool
may_exist ProviderState.accepted = true
may_exist ProviderState.unknown = true
may_exist _ = false

abbrev doctor_position : DoctorAction → ℕ
doctor_position DoctorAction.skip_verified = 0
doctor_position DoctorAction.execute_missing = 1
doctor_position DoctorAction.reconcile = 2
doctor_position DoctorAction.wait_for_confirmations = 3
doctor_position DoctorAction.manual_review = 4
doctor_position DoctorAction.complete = 5

-- `a is b`, and the equality of members of a set of actions
abbrev pub same_verdict : DoctorAction → DoctorAction → Bool
same_verdict a b = nat_eq (doctor_position a) (doctor_position b)

-- `EffectObservation(...)`: the checks of `__post_init__`
unfoldable pub make_effect_observation : EffectObservation → Result EffectObservation
make_effect_observation o = do
  reject (o.effect_id == "") Code.invalid_effect_id
  reject (not (same_chain o.chain_state ChainState.confirmed) && not (nat_eq o.confirmations 0))
      Code.unexpected_confirmations
  ok o

-- `_diagnose_effect`, from the action of the planner
unfoldable pub verdict : Action → EffectObservation → ℕ → Result (DoctorAction × DiagnosisCode)
verdict action o minimum =
    let below = ltb o.confirmations minimum in
    if same_chain o.chain_state ChainState.mismatch
    then ok (DoctorAction.manual_review, chain_economic_mismatch)
    else if same_action action Action.manual_review
    then ok (DoctorAction.manual_review, local_state_requires_manual_review)
    else if same_action action Action.skip_verified
    then (if same_chain o.chain_state ChainState.not_found
        then ok (DoctorAction.manual_review, local_verified_chain_not_found)
        else if is_rejected o.provider_state
        then ok (DoctorAction.manual_review, local_verified_provider_rejected)
        else if same_chain o.chain_state ChainState.confirmed && below
        then ok (DoctorAction.wait_for_confirmations, verified_effect_confirmations_below_policy)
        else ok (DoctorAction.skip_verified, local_verified_never_resend))
    else if same_action action Action.reconcile_required
    then (if same_chain o.chain_state ChainState.confirmed
        then (if below
            then ok (DoctorAction.wait_for_confirmations, chain_confirmations_below_policy)
            else ok (DoctorAction.reconcile, chain_confirmed_local_projection_pending))
        else if is_rejected o.provider_state
        then ok (DoctorAction.manual_review, provider_final_local_active_contradiction)
        else ok (DoctorAction.reconcile, execution_outcome_not_durably_resolved))
    else if same_action action Action.execute_missing
    then (if same_chain o.chain_state ChainState.confirmed
        then (if below
            then ok
                (DoctorAction.wait_for_confirmations, unexpected_chain_confirmation_below_policy)
            else ok (DoctorAction.reconcile, chain_effect_exists_local_missing))
        else if may_exist o.provider_state
        then ok (DoctorAction.reconcile, provider_effect_may_exist_local_missing)
        else if same_chain o.chain_state ChainState.unknown
        then ok (DoctorAction.reconcile, chain_state_unknown)
        else if is_rejected o.provider_state
        then ok (DoctorAction.manual_review, provider_rejection_without_durable_attempt)
        else ok (DoctorAction.execute_missing, no_durable_or_external_execution_evidence))
    else fail ErrorClass.doctor Code.unclassified_continuation_action

unfoldable pub diagnose_effect : Decision → EffectObservation → ℕ → Result EffectDiagnosis
diagnose_effect d o minimum = do
  v ← verdict d.action o minimum
  ok (record {
    effect_ref = d.effect_ref;
    effect_id = d.effect_id;
    action = v.0;
    diagnosis_code = v.1;
  })

abbrev pub Observations : Type 0
Observations = List (String × EffectObservation)

-- `observations[key]`; a missing key is a `KeyError`
unfoldable pub observed : Observations → String → Result EffectObservation
observed items key = elim (find (λ (item : String × EffectObservation). item.0 == key) items) [
  | some item ↦ ok item.1
  | none ↦ fail ErrorClass.foreign Code.unexpected
]

-- `action in actions`
abbrev pub among : DoctorAction → List EffectDiagnosis → Bool
among a ds = any (λ (d : EffectDiagnosis). same_verdict d.action a) ds

unfoldable pub overall_action : List EffectDiagnosis → Result DoctorAction
overall_action [] = fail ErrorClass.doctor Code.empty_diagnoses
overall_action (d ∷ ds) =
    if among DoctorAction.manual_review (d ∷ ds)
    then ok DoctorAction.manual_review
    else if among DoctorAction.wait_for_confirmations (d ∷ ds)
    then ok DoctorAction.wait_for_confirmations
    else if among DoctorAction.reconcile (d ∷ ds)
    then ok DoctorAction.reconcile
    else if among DoctorAction.execute_missing (d ∷ ds)
    then ok DoctorAction.execute_missing
    else if all (λ (x : EffectDiagnosis). same_verdict x.action DoctorAction.skip_verified) (d ∷ ds)
    then ok DoctorAction.complete
    else fail ErrorClass.doctor Code.unclassified_report_action

module _ (items : Observations) (minimum : ℕ) where
  unfoldable pub diagnose_all : List Decision → Result (List EffectDiagnosis)
  diagnose_all [] = ok []
  diagnose_all (d ∷ ds) = do
    o ← observed items d.effect_id
    x ← diagnose_effect d o minimum
    rest ← diagnose_all ds
    ok (x ∷ rest)

-- `observation_ids != decision_ids`
unfoldable pub differ : Observations → List Decision → Bool
differ items ds =
    not (
      all (λ (item : String × EffectObservation). any (λ (d : Decision). d.effect_id == item.0) ds)
        items)
    || not (
        all
          (λ (d : Decision).
            any (λ (item : String × EffectObservation). item.0 == d.effect_id) items)
          ds)

-- `observation.effect_id != effect_id` for one of the items
unfoldable pub mislabelled : Observations → Bool
mislabelled items =
    any (λ (item : String × EffectObservation). not (item.1.effect_id == item.0)) items

unfoldable pub diagnose : ContinuationPlan → Observations → ℕ → Result DoctorReport
diagnose p items minimum = do
  reject (ltb minimum 1) Code.invalid_minimum_confirmations
  reject (differ items p.decisions) Code.observation_set_mismatch
  reject (mislabelled items) Code.invalid_observation
  diagnoses ← diagnose_all items minimum p.decisions
  next_action ← overall_action diagnoses
  ok (record {
    mission_key = p.mission_key;
    next_action = next_action;
    diagnoses = diagnoses;
    total_amount_base_units = p.total_amount_base_units;
    skipped_amount_base_units = p.skipped_amount_base_units;
    executable_amount_base_units = p.executable_amount_base_units;
    unresolved_amount_base_units = p.unresolved_amount_base_units;
    manual_review_amount_base_units = p.manual_review_amount_base_units;
  })
