-- ===== src/Mission/Transitions.antt =====
-- src/nexus_vector/domain/mission_transitions.py: the pure transitions of a Mission and of one of
-- its effects. `replace(record, ...)` builds a new record, and so runs the checks of its class.
pub mod Laws
pub mod Effects
pub mod Lifecycle
use nexus_vector_keeperhub.Prelude.{
  ℕ, String, Bool, true, false, not, ◌&&◌, Option, none, some, List, [], ◌∷◌, ◌==◌, ltb, any, find,
  map, if◌then◌else◌,
}
use nexus_vector_keeperhub.Errors.{
  Error, ErrorClass, Code, Result, ok, err, fail, ◌>>=◌, ◌>>◌, reject_if, map_err,
}
use nexus_vector_keeperhub.Clock.{Datetime, require_utc}
use nexus_vector_keeperhub.Runtime.{Runtime}
use nexus_vector_keeperhub.Mission.States.{
  MissionState, EffectState, mission_allowed, effect_allowed, same_mission_state, same_effect_state,
}
use nexus_vector_keeperhub.Mission.Records.{EffectRecord, MissionRecord}
use nexus_vector_keeperhub.Mission.Models.{make_effect_record, make_mission_record, effect_id_for}

abbrev reject : Bool → Code → Result (Unit {0})
reject bad c = reject_if bad ErrorClass.mission_transition c

unfoldable pub require_not_earlier : Datetime → Datetime → Result Datetime
require_not_earlier timestamp current = do
  checked ← require_utc ErrorClass.mission_transition timestamp
  reject (ltb checked.instant current.instant) Code.timestamp_before_current
  ok checked

-- `target_state is COMPLETED and any(effect.state is not CHAIN_CONFIRMED for effect in effects)`
abbrev pub is_unconfirmed : EffectRecord → Bool
is_unconfirmed e = not (same_effect_state e.state EffectState.chain_confirmed)

-- `except MissionModelValidationError: _fail("UNKNOWN_EFFECT_REF")`
abbrev unknown_ref : Error → Error
unknown_ref e = elim e.class [
  | ErrorClass.mission_model ↦ record {
    class = ErrorClass.mission_transition;
    code = Code.unknown_effect_ref;
  }
  | _ ↦ e
]

-- `transitioned if effect.effect_id == id else effect`
abbrev pub replace_effect : String → EffectRecord → List EffectRecord → List EffectRecord
replace_effect id new [] = []
replace_effect id new (e ∷ es) = (if e.effect_id == id then new else e) ∷ replace_effect id new es

module _ (rt : Runtime) where
  unfoldable pub transition_mission : MissionRecord → MissionState → Datetime → Result MissionRecord
  transition_mission r target updated_at_utc = do
    timestamp ← require_not_earlier updated_at_utc r.updated_at_utc
    reject (not (mission_allowed r.state target)) Code.mission_transition_not_allowed
    reject (same_mission_state target MissionState.completed && any is_unconfirmed r.effects)
        Code.mission_completion_requires_confirmed_effects
    make_mission_record rt (record r { state = target; updated_at_utc = timestamp })

  unfoldable pub transition_effect : EffectRecord → EffectState → Datetime → Result EffectRecord
  transition_effect r target updated_at_utc = do
    timestamp ← require_not_earlier updated_at_utc r.updated_at_utc
    reject (not (effect_allowed r.state target)) Code.effect_transition_not_allowed
    make_effect_record rt (record r { state = target; updated_at_utc = timestamp })

  unfoldable pub transition_mission_effect :
      MissionRecord → String → EffectState → Datetime → Result MissionRecord
  transition_mission_effect r effect_ref target updated_at_utc = do
    timestamp ← require_not_earlier updated_at_utc r.updated_at_utc
    id ← map_err unknown_ref (effect_id_for rt r effect_ref)
    elim (find (λ (e : EffectRecord). e.effect_id == id) r.effects) [
      | none ↦ fail ErrorClass.mission_transition Code.unknown_effect_ref
      | some selected ↦ do
        moved ← transition_effect selected target timestamp
        make_mission_record rt
            (record r { effects = replace_effect id moved r.effects; updated_at_utc = timestamp })
    ]
