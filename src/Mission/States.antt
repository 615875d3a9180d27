-- ===== src/Mission/States.antt =====
-- The states of src/nexus_vector/domain/mission_models.py, and the transition tables of
-- src/nexus_vector/domain/mission_transitions.py.
use nexus_vector_keeperhub.Prelude.{ℕ, ◌≡◌, Bool, true, false, arith, nat_eq}

pub data MissionState : Type 0 where
  received validated persisted reconciling ready_for_execution : MissionState
  executing verifying completed mission_conflict blocked : MissionState
  execution_unknown verification_failed manual_review_required : MissionState

pub data EffectState : Type 0 where
  planned reserved submitted execution_unknown : EffectState
  chain_confirmed failed_final blocked : EffectState

-- `target_state in _MISSION_TRANSITIONS[record.state]`
abbrev pub mission_allowed : MissionState → MissionState → Bool
mission_allowed MissionState.received MissionState.validated = true
mission_allowed MissionState.received MissionState.mission_conflict = true
mission_allowed MissionState.received MissionState.blocked = true
mission_allowed MissionState.validated MissionState.persisted = true
mission_allowed MissionState.validated MissionState.mission_conflict = true
mission_allowed MissionState.validated MissionState.blocked = true
mission_allowed MissionState.persisted MissionState.reconciling = true
mission_allowed MissionState.persisted MissionState.blocked = true
mission_allowed MissionState.reconciling MissionState.ready_for_execution = true
mission_allowed MissionState.reconciling MissionState.execution_unknown = true
mission_allowed MissionState.reconciling MissionState.verification_failed = true
mission_allowed MissionState.reconciling MissionState.manual_review_required = true
mission_allowed MissionState.reconciling MissionState.blocked = true
mission_allowed MissionState.reconciling MissionState.completed = true
mission_allowed MissionState.ready_for_execution MissionState.executing = true
mission_allowed MissionState.ready_for_execution MissionState.reconciling = true
mission_allowed MissionState.ready_for_execution MissionState.manual_review_required = true
mission_allowed MissionState.ready_for_execution MissionState.blocked = true
mission_allowed MissionState.executing MissionState.verifying = true
mission_allowed MissionState.executing MissionState.execution_unknown = true
mission_allowed MissionState.executing MissionState.reconciling = true
mission_allowed MissionState.executing MissionState.manual_review_required = true
mission_allowed MissionState.executing MissionState.blocked = true
mission_allowed MissionState.verifying MissionState.completed = true
mission_allowed MissionState.verifying MissionState.execution_unknown = true
mission_allowed MissionState.verifying MissionState.verification_failed = true
mission_allowed MissionState.verifying MissionState.reconciling = true
mission_allowed MissionState.verifying MissionState.manual_review_required = true
mission_allowed MissionState.verifying MissionState.blocked = true
mission_allowed MissionState.execution_unknown MissionState.reconciling = true
mission_allowed MissionState.execution_unknown MissionState.manual_review_required = true
mission_allowed MissionState.execution_unknown MissionState.blocked = true
mission_allowed MissionState.verification_failed MissionState.reconciling = true
mission_allowed MissionState.verification_failed MissionState.manual_review_required = true
mission_allowed MissionState.verification_failed MissionState.blocked = true
mission_allowed _ _ = false

-- `target_state in _EFFECT_TRANSITIONS[record.state]`
abbrev pub effect_allowed : EffectState → EffectState → Bool
effect_allowed EffectState.planned EffectState.reserved = true
effect_allowed EffectState.planned EffectState.blocked = true
effect_allowed EffectState.reserved EffectState.submitted = true
effect_allowed EffectState.reserved EffectState.blocked = true
effect_allowed EffectState.submitted EffectState.execution_unknown = true
effect_allowed EffectState.submitted EffectState.chain_confirmed = true
effect_allowed EffectState.submitted EffectState.failed_final = true
effect_allowed EffectState.submitted EffectState.blocked = true
effect_allowed EffectState.execution_unknown EffectState.chain_confirmed = true
effect_allowed EffectState.execution_unknown EffectState.failed_final = true
effect_allowed EffectState.execution_unknown EffectState.blocked = true
effect_allowed _ _ = false

-- The position of a state in the enumeration, by which `is` tells two states apart.
abbrev pub mission_position : MissionState → ℕ
mission_position MissionState.received = 0
mission_position MissionState.validated = 1
mission_position MissionState.persisted = 2
mission_position MissionState.reconciling = 3
mission_position MissionState.ready_for_execution = 4
mission_position MissionState.executing = 5
mission_position MissionState.verifying = 6
mission_position MissionState.completed = 7
mission_position MissionState.mission_conflict = 8
mission_position MissionState.blocked = 9
mission_position MissionState.execution_unknown = 10
mission_position MissionState.verification_failed = 11
mission_position MissionState.manual_review_required = 12

-- `a is b`
abbrev pub same_mission_state : MissionState → MissionState → Bool
same_mission_state a b = nat_eq (mission_position a) (mission_position b)

-- The position of a state in the enumeration, by which `is` tells two states apart.
abbrev pub effect_position : EffectState → ℕ
effect_position EffectState.planned = 0
effect_position EffectState.reserved = 1
effect_position EffectState.submitted = 2
effect_position EffectState.execution_unknown = 3
effect_position EffectState.chain_confirmed = 4
effect_position EffectState.failed_final = 5
effect_position EffectState.blocked = 6

-- `a is b`
abbrev pub same_effect_state : EffectState → EffectState → Bool
same_effect_state a b = nat_eq (effect_position a) (effect_position b)

pub same_mission_state→≡ : (a b : MissionState) → same_mission_state a b ≡ true → a ≡ b
same_mission_state→≡ a b h = ground arith

pub same_effect_state→≡ : (a b : EffectState) → same_effect_state a b ≡ true → a ≡ b
same_effect_state→≡ a b h = ground arith
