-- ===== src/Persistence/MissionStore/Exclusive.antt =====
-- Two writers of one Mission that have read the same revision, in
-- src/nexus_vector/persistence/sqlite_mission_store.py.
use nexus_vector_keeperhub.Prelude.{ℕ, String}
use nexus_vector_keeperhub.Errors.{Error, ErrorClass, Code, Result}
use nexus_vector_keeperhub.Clock.{Datetime}
use nexus_vector_keeperhub.Runtime.{Runtime}
use nexus_vector_keeperhub.Mission.States.{MissionState, EffectState}
use nexus_vector_keeperhub.Mission.Records.{StoredMission}
use nexus_vector_keeperhub.Persistence.MissionTables.{MissionTables, MissionDb}
use nexus_vector_keeperhub.Persistence.MissionStore.{move_mission, move_effect}

-- A write to a Mission that exists: a transition of it, or of one of its effects.
pub data Move : Type 0 where
  mission : MissionState → Datetime → Move
  effect : String → EffectState → Datetime → Move

abbrev pub make_move : Runtime → Move → String → ℕ → MissionDb → Result StoredMission × MissionDb
make_move rt (mission target at) key expected = move_mission rt key expected target at
make_move rt (effect ref target at) key expected = move_effect rt key ref expected target at

abbrev pub stale_revision : Error
stale_revision = record { class = ErrorClass.mission_store; code = Code.stale_revision }
