-- ===== src/Tests/Diagnoses.antt =====
-- Diagnoses at concrete inputs.
use nexus_vector_keeperhub.Prelude.{◌≡◌, refl, arith, false, [], ◌∷◌, All}
use nexus_vector_keeperhub.Errors.{ok}
use nexus_vector_keeperhub.Continuation.{Action, Decision, ContinuationPlan}
use nexus_vector_keeperhub.Doctor.{
  ProviderState, ChainState, DoctorAction, DiagnosisCode, EffectObservation, EffectDiagnosis,
  DoctorReport, Observations, observed, verdict, diagnose_effect, diagnose_all, overall_action,
  differ, mislabelled, diagnose,
}
use nexus_vector_keeperhub.Doctor.Verdicts.{IsSettled}
use nexus_vector_keeperhub.Doctor.Overall.{gravest, of_gravity, overall_action-gravest}
use nexus_vector_keeperhub.Doctor.Report.{Reports}
use nexus_vector_keeperhub.Doctor.Safety.{
  IsSafeDiagnosis, diagnose_returns, diagnose-IsSafeDiagnosis, diagnose_complete,
}
use nexus_vector_keeperhub.Tests.Fixtures.{toy, effect_a, effect_b, mission_a}
use nexus_vector_keeperhub.Tests.Plans.{half_done, journal, half_plan, plans}

-- What a run of the doctor computes through.
unfoldable doctor_runs : Unit {0}
unfolding observed verdict diagnose_effect diagnose_all overall_action differ mislabelled diagnose
doctor_runs = tt

abbrev unseen_ben : EffectObservation
unseen_ben = record {
  effect_id = effect_b;
  provider_state = ProviderState.not_found;
  chain_state = ChainState.not_found;
  confirmations = 0;
}

abbrev confirmed_anna : EffectObservation
confirmed_anna = record {
  effect_id = effect_a;
  provider_state = ProviderState.accepted;
  chain_state = ChainState.confirmed;
  confirmations = 3;
}

abbrev seen : Observations
seen = (effect_a, confirmed_anna) ∷ (effect_b, unseen_ben) ∷ []

abbrev skip_anna : EffectDiagnosis
skip_anna = record {
  effect_ref = "anna";
  effect_id = effect_a;
  action = DoctorAction.skip_verified;
  diagnosis_code = DiagnosisCode.local_verified_never_resend;
}

abbrev execute_ben : EffectDiagnosis
execute_ben = record {
  effect_ref = "ben";
  effect_id = effect_b;
  action = DoctorAction.execute_missing;
  diagnosis_code = DiagnosisCode.no_durable_or_external_execution_evidence;
}

abbrev half_report : DoctorReport
half_report = record {
  mission_key = mission_a;
  next_action = DoctorAction.execute_missing;
  diagnoses = skip_anna ∷ execute_ben ∷ [];
  total_amount_base_units = 42;
  skipped_amount_base_units = 12;
  executable_amount_base_units = 30;
  unresolved_amount_base_units = 0;
  manual_review_amount_base_units = 0;
}

reports : diagnose half_plan seen 2 ≡ ok half_report
unfolding doctor_runs
reports = refl

same_keys : differ seen half_plan.decisions ≡ false
unfolding doctor_runs
same_keys = refl

labelled : mislabelled seen ≡ false
unfolding doctor_runs
labelled = refl

diagnose_returns_example :
    (r : DoctorReport) × (diagnose half_plan seen 2 ≡ ok r) × Reports half_plan seen 2 r
diagnose_returns_example =
    diagnose_returns half_plan seen 2 (λ h. ground (arith, h)) (omega arith) same_keys labelled

diagnose-IsSafeDiagnosis_example :
    All (IsSafeDiagnosis toy journal half_done.state seen) half_report.diagnoses
diagnose-IsSafeDiagnosis_example =
    diagnose-IsSafeDiagnosis toy journal half_done half_plan seen 2 half_report plans reports

overall_action-gravest_example :
    overall_action (skip_anna ∷ execute_ben ∷ [])
    ≡ ok (of_gravity (gravest (skip_anna ∷ execute_ben ∷ [])))
overall_action-gravest_example =
    overall_action-gravest skip_anna (execute_ben ∷ [])
      (λ h. ground (arith, h), (λ h. ground (arith, h), tt))

-- A plan in which everything is done.
abbrev done_plan : ContinuationPlan
done_plan = record half_plan {
  decisions =
      record {
        effect_ref = "anna";
        effect_id = effect_a;
        amount_base_units = 12;
        action = Action.skip_verified;
        reason_code = nexus_vector_keeperhub.Continuation.effect_already_verified;
      }
      ∷ [];
}

abbrev done_seen : Observations
done_seen = (effect_a, confirmed_anna) ∷ []

abbrev done_report : DoctorReport
done_report = record half_report { next_action = DoctorAction.complete; diagnoses = skip_anna ∷ [] }

completes : diagnose done_plan done_seen 2 ≡ ok done_report
unfolding doctor_runs
completes = refl

diagnose_complete_example :
    All
      (λ (d : Decision).
        (o : EffectObservation) × (observed done_seen d.effect_id ≡ ok o) × IsSettled d.action o 2)
      done_plan.decisions
diagnose_complete_example = diagnose_complete done_plan done_seen 2 done_report completes refl
