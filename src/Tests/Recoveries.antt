-- ===== src/Tests/Recoveries.antt =====
-- A reconciliation at concrete inputs.
use nexus_vector_keeperhub.Prelude.{◌≡◌, refl, ◌⊎◌, String, [], ◌∷◌, some}
use nexus_vector_keeperhub.Errors.{ok}
use nexus_vector_keeperhub.Clock.{utc}
use nexus_vector_keeperhub.Mission.States.{MissionState, EffectState}
use nexus_vector_keeperhub.Mission.Records.{StoredMission}
use nexus_vector_keeperhub.Attempt.States.{AttemptState}
use nexus_vector_keeperhub.Persistence.AttemptStore.{StoredAttempt, AttemptRow}
use nexus_vector_keeperhub.Persistence.MissionTables.{MissionRow, EffectRow}
use nexus_vector_keeperhub.Evidence.{
  ObservationStatus, ObservedTransfer, evidence_address, normalize_expected_sender,
  derive_evidence_fingerprint,
}
use nexus_vector_keeperhub.Reconciliation.{
  Outcome, Reconciled, Verifier, reconcile, judge, judge_transfer, unresolved_outcome,
  unknown_outcome,
}
use nexus_vector_keeperhub.Reconciliation.Steps.{
  Stores, find_effect, effect_named, economic_match, transition_attempt, transition_mission,
  transition_effect, mark_unknown, mark_verified, block_attempt, ensure_reconciling,
  mark_manual_review, confirm_effect, settle_mission, project_confirmed_effect,
}
use nexus_vector_keeperhub.Reconciliation.Judgement.{Evidenced}
use nexus_vector_keeperhub.Reconciliation.Report.{Subject, reconcile_sound}
use nexus_vector_keeperhub.Tests.Fixtures.{
  toy, executable, effect_of, mission_of, request_a, effect_a, mission_a, attempt_a, plan_a, token,
  anna,
}
use nexus_vector_keeperhub.Tests.Computing.{mission_runs}

-- What a run of a reconciliation computes through.
unfoldable recovery_runs : Unit {0}
unfolding executable mission_runs nexus_vector_keeperhub.Persistence.AttemptStore.get
    evidence_address normalize_expected_sender derive_evidence_fingerprint reconcile judge
    judge_transfer unresolved_outcome unknown_outcome find_effect effect_named economic_match
    transition_attempt transition_mission transition_effect mark_unknown mark_verified block_attempt
    ensure_reconciling mark_manual_review confirm_effect settle_mission project_confirmed_effect
recovery_runs = tt

abbrev executing_row : MissionRow
executing_row = record {
  mission_key = mission_a;
  schema_version = request_a.schema_version;
  content_fingerprint = "mfp_aaaaaaaaaaaaaaaaaaaaaaaaaaaaaaaaaaaaaaaaaaaaaaaaaaaaaaaaaaaaaaaa";
  request = request_a;
  state = MissionState.executing;
  created_at = 1;
  updated_at = 2;
  revision = 5;
}

abbrev planned_row : EffectRow
planned_row = record {
  effect_id = effect_a;
  mission_key = mission_a;
  effect_ref = "anna";
  chain_id = 84532;
  token_address = token;
  token_decimals = 6;
  recipient = anna;
  amount_base_units = 12;
  state = EffectState.planned;
  created_at = 1;
  updated_at = 2;
}

abbrev unknown_row : AttemptRow
unknown_row = record {
  attempt_id = attempt_a;
  plan = plan_a;
  state = AttemptState.execution_unknown;
  created_at = 5;
  updated_at = 6;
  revision = 3;
}

abbrev crashed : Stores
crashed = record {
  attempts = record { tables = unknown_row ∷ []; faults = [] };
  missions = record {
    tables = record { missions = executing_row ∷ []; effects = planned_row ∷ [] };
    faults = [];
  };
}

abbrev treasury : String
treasury = "0xcccccccccccccccccccccccccccccccccccccccc"

abbrev seen_transfer : ObservedTransfer
seen_transfer = record {
  chain_id = 84532;
  token_address = token;
  sender = treasury;
  recipient = anna;
  amount_base_units = 12;
  transaction_hash = "0xaaaaaaaaaaaaaaaaaaaaaaaaaaaaaaaaaaaaaaaaaaaaaaaaaaaaaaaaaaaaaaaa";
  block_hash = "0xbbbbbbbbbbbbbbbbbbbbbbbbbbbbbbbbbbbbbbbbbbbbbbbbbbbbbbbbbbbbbbbb";
  log_index = 0;
  confirmations = 3;
}

abbrev shows : ObservedTransfer → Verifier
shows t x = some (record { status = ObservationStatus.verified_transfer; transfer = some t })

abbrev recovered_attempt : StoredAttempt
recovered_attempt = record {
  entry = record {
    attempt_id = attempt_a;
    plan = plan_a;
    state = AttemptState.verified;
    created_at_utc = utc 5;
    updated_at_utc = utc 9;
  };
  revision = 4;
}

abbrev recovered_mission : StoredMission
recovered_mission = record {
  entry =
      record (mission_of MissionState.completed (
        record (effect_of "anna" effect_a 12 EffectState.chain_confirmed) { updated_at_utc = utc 9 }
        ∷ [])) { updated_at_utc = utc 9 };
  revision = 10;
}

abbrev recovery : Reconciled
recovery = record {
  outcome = Outcome.verified;
  attempt = recovered_attempt;
  mission = recovered_mission;
  evidence_fingerprint =
      some "evf_aaaaaaaaaaaaaaaaaaaaaaaaaaaaaaaaaaaaaaaaaaaaaaaaaaaaaaaaaaaaaaaa";
}

recovers :
    (reconcile toy attempt_a treasury 2 (shows seen_transfer) (utc 9) crashed).0 ≡ ok recovery
unfolding recovery_runs
recovers = refl

-- Too few confirmations leave both journals as they were.
waits :
    let (r, s) = reconcile toy attempt_a treasury 4 (shows seen_transfer) (utc 9) crashed in
    (s.missions.tables ≡ crashed.missions.tables) × (s.attempts.tables ≡ crashed.attempts.tables)
unfolding recovery_runs
waits = (refl, refl)

reconcile_sound_example :
    (recovery.attempt.entry.state ≡ AttemptState.verified)
    × ((x : Subject toy attempt_a treasury crashed) × ((x.attempt.entry.state
              ≡ AttemptState.verified)
            × (x.effect.state ≡ EffectState.chain_confirmed)
          ⊎ Evidenced toy x.sender 2 x.effect (shows seen_transfer x.attempt.entry) recovery))
reconcile_sound_example =
    reconcile_sound toy attempt_a treasury 2 (shows seen_transfer) (utc 9) crashed recovery recovers
      refl
