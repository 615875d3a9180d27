-- ===== src/Tests/Missions.antt =====
-- Missions and their store at concrete inputs.
use nexus_vector_keeperhub.Prelude.{◌≡◌, refl, arith, [], ◌∷◌, All}
use nexus_vector_keeperhub.Errors.{ErrorClass, Code, ok, err}
use nexus_vector_keeperhub.Clock.{utc}
use nexus_vector_keeperhub.Mission.States.{MissionState, EffectState}
use nexus_vector_keeperhub.Mission.Records.{MissionRecord, EffectRecord, StoredMission}
use nexus_vector_keeperhub.Mission.Transitions.{transition_mission, transition_mission_effect}
use nexus_vector_keeperhub.Mission.Transitions.Laws.{
  IsConfirmed, IsWellFormed, Moved, transition_mission-Moved,
}
use nexus_vector_keeperhub.Mission.Transitions.Effects.{
  EffectMoves, transition_mission_effect-moves,
}
use nexus_vector_keeperhub.Mission.Transitions.Lifecycle.{Reach, completed-IsConfirmed}
use nexus_vector_keeperhub.Mission.Initial.{create_initial_mission_record}
use nexus_vector_keeperhub.Persistence.MissionTables.{MissionDb}
use nexus_vector_keeperhub.Persistence.MissionStore.{move_mission}
use nexus_vector_keeperhub.Persistence.MissionStore.Revisions.{Swapped, move_mission-Swapped}
use nexus_vector_keeperhub.Persistence.MissionStore.Exclusive.{Move, mission, effect}
use nexus_vector_keeperhub.Admission.{admit}
use nexus_vector_keeperhub.Admission.Durable.{Admitted, admit-Admitted}
use nexus_vector_keeperhub.Tests.Fixtures.{
  toy, effect_of, mission_of, request_a, effect_a, mission_a,
}
use nexus_vector_keeperhub.Tests.Computing.{mission_runs}

abbrev submitted_effect : EffectRecord
submitted_effect = effect_of "anna" effect_a 12 EffectState.submitted

abbrev verifying_mission : MissionRecord
verifying_mission = mission_of MissionState.verifying (submitted_effect ∷ [])

abbrev confirmed_mission : MissionRecord
confirmed_mission = record verifying_mission {
  effects =
      record submitted_effect { state = EffectState.chain_confirmed; updated_at_utc = utc 7 } ∷ [];
  updated_at_utc = utc 7;
}

abbrev completed_mission : MissionRecord
completed_mission = record confirmed_mission {
  state = MissionState.completed;
  updated_at_utc = utc 9;
}

confirms :
    transition_mission_effect toy verifying_mission "anna" EffectState.chain_confirmed (utc 7)
    ≡ ok confirmed_mission
unfolding mission_runs
confirms = refl

completes :
    transition_mission toy confirmed_mission MissionState.completed (utc 9) ≡ ok completed_mission
unfolding mission_runs
completes = refl

-- A Mission is not completed before its effect is confirmed.
completes_too_early :
    transition_mission toy verifying_mission MissionState.completed (utc 9)
    ≡ err (record {
      class = ErrorClass.mission_transition;
      code = Code.mission_completion_requires_confirmed_effects;
    })
unfolding mission_runs
completes_too_early = refl

completed-IsConfirmed_example : All IsConfirmed completed_mission.effects
completed-IsConfirmed_example =
    completed-IsConfirmed toy verifying_mission completed_mission (λ h. absurd (ground arith))
      (Reach.mission MissionState.completed (utc 9) completed_mission
        (Reach.effect "anna" EffectState.chain_confirmed (utc 7) confirmed_mission Reach.start
          confirms)
        completes)
      refl

transition_mission-Moved_example :
    Moved toy confirmed_mission MissionState.completed (utc 9) completed_mission
transition_mission-Moved_example =
    transition_mission-Moved toy confirmed_mission MissionState.completed (utc 9) completed_mission
      completes

transition_mission_effect-moves_example :
    (confirmed_mission.state ≡ verifying_mission.state)
    × (confirmed_mission.request ≡ verifying_mission.request)
    × EffectMoves toy verifying_mission.effects confirmed_mission.effects
    × IsWellFormed toy confirmed_mission
transition_mission_effect-moves_example =
    transition_mission_effect-moves toy verifying_mission "anna" EffectState.chain_confirmed (utc 7)
      confirmed_mission (refl, tt) confirms

abbrev empty_db : MissionDb
empty_db = record { tables = record { missions = []; effects = [] }; faults = [] }

abbrev initial_mission : MissionRecord
initial_mission =
    record (mission_of MissionState.received (
      record (effect_of "anna" effect_a 12 EffectState.planned) {
        created_at_utc = utc 5;
        updated_at_utc = utc 5;
      }
      ∷ [])) { created_at_utc = utc 5; updated_at_utc = utc 5 }

abbrev admitted_mission : StoredMission
admitted_mission = record {
  entry = record initial_mission { state = MissionState.persisted };
  revision = 3;
}

admits : (admit toy request_a (utc 5) empty_db).0 ≡ ok admitted_mission
unfolding mission_runs
admits = refl

admit-Admitted_example :
    (initial : MissionRecord) × (create_initial_mission_record toy request_a (utc 5) ≡ ok initial)
    × Admitted toy initial admitted_mission (admit toy request_a (utc 5) empty_db).1
admit-Admitted_example = admit-Admitted toy request_a (utc 5) empty_db admitted_mission admits

abbrev admitted_db : MissionDb
admitted_db = (admit toy request_a (utc 5) empty_db).1

abbrev reconciling_mission : StoredMission
reconciling_mission = record {
  entry = record initial_mission { state = MissionState.reconciling; updated_at_utc = utc 8 };
  revision = 4;
}

swaps :
    (move_mission toy mission_a 3 MissionState.reconciling (utc 8) admitted_db).0
    ≡ ok reconciling_mission
unfolding mission_runs
swaps = refl

move_mission-Swapped_example :
    Swapped toy mission_a 3 MissionState.reconciling
      (utc 8)
      admitted_db.tables
      reconciling_mission
      (move_mission toy mission_a 3 MissionState.reconciling (utc 8) admitted_db).1.tables
move_mission-Swapped_example =
    move_mission-Swapped toy mission_a 3 MissionState.reconciling (utc 8) admitted_db
      reconciling_mission swaps

-- Two writers have read revision 3: one reconciles the Mission, the other reserves its effect.
abbrev swapped_db : MissionDb
swapped_db = (move_mission toy mission_a 3 MissionState.reconciling (utc 8) admitted_db).1

abbrev reservation : Move
reservation = effect "anna" EffectState.reserved (utc 8)
