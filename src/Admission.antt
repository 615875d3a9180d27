-- ===== src/Admission.antt =====
-- src/nexus_vector/application/mission_admission.py: a Mission is made durable before any execution.
-- Between two transactions of one call no other process writes.
pub mod Durable
use nexus_vector_keeperhub.Prelude.{
  ℕ, zero, suc, String, Bool, true, false, not, ◌&&◌, Option, none, some, ◌==◌, if◌then◌else◌,
}
use nexus_vector_keeperhub.Errors.{
  Error, ErrorClass, Code, Result, ok, err, is_mission_store, is_stale,
}
use nexus_vector_keeperhub.Calls.{Call, ◌>>=◌, ◌>>◌, try, pure, lift, raise}
use nexus_vector_keeperhub.Clock.{Datetime, later}
use nexus_vector_keeperhub.Runtime.{Runtime}
use nexus_vector_keeperhub.Mission.States.{MissionState}
use nexus_vector_keeperhub.Mission.Records.{MissionRequest, MissionRecord, StoredMission}
use nexus_vector_keeperhub.Mission.Initial.{create_initial_mission_record}
use nexus_vector_keeperhub.Persistence.MissionTables.{MissionDb, initialize}
use nexus_vector_keeperhub.Persistence.MissionStore.{create, get, move_mission}

abbrev fail_admission : {A : Type 0} → Code → Call MissionDb A
fail_admission = raise ErrorClass.admission

-- `_MAX_CAS_STEPS`
abbrev pub max_admission_steps : ℕ
max_admission_steps = 4

-- `_ADMITTED_STATES`
abbrev pub is_admitted : MissionState → Bool
is_admitted MissionState.persisted = true
is_admitted MissionState.reconciling = true
is_admitted MissionState.ready_for_execution = true
is_admitted MissionState.executing = true
is_admitted MissionState.verifying = true
is_admitted MissionState.completed = true
is_admitted MissionState.execution_unknown = true
is_admitted MissionState.verification_failed = true
is_admitted MissionState.manual_review_required = true
is_admitted _ = false

-- The state that the loop moves a Mission to, where it does not leave the loop.
abbrev pub admission_target : MissionState → Option MissionState
admission_target MissionState.received = some MissionState.validated
admission_target MissionState.validated = some MissionState.persisted
admission_target _ = none

-- `if stored is None: _fail("MISSION_NOT_FOUND")`
abbrev require_mission : Option StoredMission → Call MissionDb StoredMission
require_mission none = fail_admission Code.mission_not_found
require_mission (some s) = pure s

module _ (rt : Runtime) where
  -- The loop of `admit`: `zero` is its `else`, where no iteration has left it.
  unfoldable pub admission_loop : ℕ → String → Datetime → StoredMission → Call MissionDb (Unit {0})
  admission_loop zero key at current = fail_admission Code.admission_cas_exhausted
  admission_loop (suc n) key at current = elim (admission_target current.entry.state) [
    | none ↦ pure tt
    | some target ↦
        try
          (move_mission rt current.entry.mission_key current.revision target
            (later at current.entry.updated_at_utc))
          (λ moved. admission_loop n key at moved)
          (λ e.
            if is_mission_store e.class && is_stale e.code
            then (do
              found ← get rt key
              reread ← require_mission found
              admission_loop n key at reread)
            else lift (err e))
  ]

  -- The end of `admit`, after its loop.
  unfoldable pub confirm_admission : MissionRecord → Call MissionDb StoredMission
  confirm_admission initial = do
    found ← get rt initial.mission_key
    final ← require_mission found
    if not (final.entry.content_fingerprint == initial.content_fingerprint)
        then fail_admission Code.mission_conflict
        else if not (is_admitted final.entry.state)
        then fail_admission Code.admission_not_persisted
        else pure final

  unfoldable pub admit : MissionRequest → Datetime → Call MissionDb StoredMission
  admit request admitted_at_utc = do
    initial ← lift (create_initial_mission_record rt request admitted_at_utc)
    initialize
    current ← create rt initial
    admission_loop max_admission_steps initial.mission_key admitted_at_utc current
    confirm_admission initial
