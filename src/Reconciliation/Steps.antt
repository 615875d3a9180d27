-- ===== src/Reconciliation/Steps.antt =====
-- src/nexus_vector/application/execution_reconciliation.py: the steps of a reconciliation, which are
-- loops of compare-and-swap over the two stores. Between two transactions of one call no other
-- process writes.
use nexus_vector_keeperhub.Prelude.{
  ℕ, zero, suc, String, Bool, true, false, not, ◌&&◌, ◌||◌, Option, none, some, ◌==◌, nat_eq, find,
  any, all, if◌then◌else◌,
}
use nexus_vector_keeperhub.Errors.{ErrorClass, Code, err, is_attempt_store, is_stale}
use nexus_vector_keeperhub.Calls.{Call, ◌>>=◌, try, pure, lift, raise}
use nexus_vector_keeperhub.Clock.{Datetime, later}
use nexus_vector_keeperhub.Runtime.{Runtime}
use nexus_vector_keeperhub.Mission.States.{
  MissionState, EffectState, same_mission_state, same_effect_state,
}
use nexus_vector_keeperhub.Mission.Records.{EffectRecord, StoredMission}
use nexus_vector_keeperhub.Attempt.States.{AttemptState, same}
use nexus_vector_keeperhub.Persistence.AttemptStore.{StoredAttempt, AttemptDb, transition}
use nexus_vector_keeperhub.Persistence.AttemptStore
use nexus_vector_keeperhub.Persistence.MissionTables.{MissionDb}
use nexus_vector_keeperhub.Persistence.MissionStore.{move_mission, move_effect}
use nexus_vector_keeperhub.Persistence.MissionStore
use nexus_vector_keeperhub.Evidence.{ObservedTransfer}

pub record Stores : Type 0 where
  pub attempts : AttemptDb
  pub missions : MissionDb

abbrev pub on_attempts : {A : Type 0} → Call AttemptDb A → Call Stores A
on_attempts m s = let (r, db) = m s.attempts in (r, record s { attempts = db })

abbrev pub on_missions : {A : Type 0} → Call MissionDb A → Call Stores A
on_missions m s = let (r, db) = m s.missions in (r, record s { missions = db })

abbrev pub fail_reconciliation : {A : Type 0} → Code → Call Stores A
fail_reconciliation = raise ErrorClass.reconciliation

-- `if stored is None: _fail(code)`
abbrev pub require_some : {A : Type 0} → Code → Option A → Call Stores A
require_some c none = fail_reconciliation c
require_some c (some a) = pure a

-- `_MAX_CAS_STEPS`
abbrev pub max_cas_steps : ℕ
max_cas_steps = 12

-- `_find_effect`
unfoldable pub find_effect : StoredMission → String → Call Stores EffectRecord
find_effect mission id =
    require_some Code.effect_not_found
      (find (λ (e : EffectRecord). e.effect_id == id) mission.entry.effects)

-- `next(item for item in mission.record.effects if item.effect_ref == ref)`: `StopIteration`
-- where there is none.
unfoldable pub effect_named : StoredMission → String → Call Stores EffectRecord
effect_named mission ref =
    elim (find (λ (e : EffectRecord). e.effect_ref == ref) mission.entry.effects) [
      | none ↦ raise ErrorClass.foreign Code.unexpected
      | some e ↦ pure e
    ]

unfoldable pub economic_match : EffectRecord → String → ObservedTransfer → Bool
economic_match effect sender t =
    nat_eq t.chain_id effect.chain_id
    && t.token_address == effect.token_address
    && t.sender == sender
    && t.recipient == effect.recipient
    && nat_eq t.amount_base_units effect.amount_base_units

-- A state of the attempt that `_mark_unknown` keeps.
abbrev pub keeps_state : AttemptState → Bool
keeps_state AttemptState.in_flight = false
keeps_state AttemptState.provider_acknowledged = false
keeps_state _ = true

-- `state in {FAILED_FINAL, BLOCKED}`
abbrev pub is_failed : AttemptState → Bool
is_failed AttemptState.failed_final = true
is_failed AttemptState.blocked = true
is_failed _ = false

-- `allowed_sources` of `_ensure_reconciling`
abbrev pub is_source : MissionState → Bool
is_source MissionState.persisted = true
is_source MissionState.ready_for_execution = true
is_source MissionState.executing = true
is_source MissionState.verifying = true
is_source MissionState.execution_unknown = true
is_source MissionState.verification_failed = true
is_source _ = false

-- The next state of an effect on its way to CHAIN_CONFIRMED.
abbrev pub next_effect_state : EffectState → Option EffectState
next_effect_state EffectState.planned = some EffectState.reserved
next_effect_state EffectState.reserved = some EffectState.submitted
next_effect_state EffectState.submitted = some EffectState.chain_confirmed
next_effect_state EffectState.execution_unknown = some EffectState.chain_confirmed
next_effect_state _ = none

abbrev pub is_confirmed : EffectRecord → Bool
is_confirmed e = same_effect_state e.state EffectState.chain_confirmed

-- `state in {FAILED_FINAL, BLOCKED}` of an effect
abbrev pub is_dead : EffectState → Bool
is_dead EffectState.failed_final = true
is_dead EffectState.blocked = true
is_dead _ = false

-- `state in {RESERVED, SUBMITTED, EXECUTION_UNKNOWN}` of an effect
abbrev pub is_pending : EffectState → Bool
is_pending EffectState.reserved = true
is_pending EffectState.submitted = true
is_pending EffectState.execution_unknown = true
is_pending _ = false

module _ (rt : Runtime) where
  -- The loops of compare-and-swap: a stale revision reads the record again.
  unfoldable pub transition_attempt :
      ℕ → StoredAttempt → AttemptState → Datetime → Call Stores StoredAttempt
  transition_attempt zero current target at = fail_reconciliation Code.attempt_cas_exhausted
  transition_attempt (suc n) current target at =
      if same current.entry.state target
      then pure current
      else try
          (on_attempts (
            transition rt current.entry.attempt_id current.revision target
              (later at current.entry.updated_at_utc)))
          pure
          (λ e.
            if is_attempt_store e.class && is_stale e.code
            then (do
              found ← on_attempts (AttemptStore.get rt current.entry.attempt_id)
              reread ← require_some Code.attempt_not_found found
              transition_attempt n reread target at)
            else lift (err e))

  unfoldable pub transition_mission :
      ℕ → StoredMission → MissionState → Datetime → Call Stores StoredMission
  transition_mission zero current target at = fail_reconciliation Code.mission_cas_exhausted
  transition_mission (suc n) current target at =
      if same_mission_state current.entry.state target
      then pure current
      else try
          (on_missions (
            move_mission rt current.entry.mission_key current.revision target
              (later at current.entry.updated_at_utc)))
          pure
          (λ e.
            if is_stale e.code
            then (do
              found ← on_missions (MissionStore.get rt current.entry.mission_key)
              reread ← require_some Code.mission_not_found found
              transition_mission n reread target at)
            else lift (err e))

  unfoldable pub transition_effect :
      ℕ → StoredMission → String → EffectState → Datetime → Call Stores StoredMission
  transition_effect zero current ref target at = fail_reconciliation Code.effect_cas_exhausted
  transition_effect (suc n) current ref target at = do
    effect ← effect_named current ref
    if same_effect_state effect.state target
        then pure current
        else try
            (on_missions (
              move_effect rt current.entry.mission_key ref current.revision target
                (later at current.entry.updated_at_utc)))
            pure
            (λ e.
              if is_stale e.code
              then (do
                found ← on_missions (MissionStore.get rt current.entry.mission_key)
                reread ← require_some Code.mission_not_found found
                transition_effect n reread ref target at)
              else lift (err e))

  unfoldable pub mark_unknown : StoredAttempt → Datetime → Call Stores StoredAttempt
  mark_unknown attempt at =
      if keeps_state attempt.entry.state
      then pure attempt
      else transition_attempt max_cas_steps attempt AttemptState.execution_unknown at

  unfoldable pub mark_verified : StoredAttempt → Datetime → Call Stores StoredAttempt
  mark_verified attempt at =
      if same attempt.entry.state AttemptState.verified
      then pure attempt
      else if is_failed attempt.entry.state
      then fail_reconciliation Code.attempt_terminal_contradiction
      else transition_attempt max_cas_steps attempt AttemptState.verified at

  unfoldable pub block_attempt : StoredAttempt → Datetime → Call Stores StoredAttempt
  block_attempt attempt at =
      if same attempt.entry.state AttemptState.verified || is_failed attempt.entry.state
      then pure attempt
      else transition_attempt max_cas_steps attempt AttemptState.blocked at

  unfoldable pub ensure_reconciling : StoredMission → Datetime → Call Stores StoredMission
  ensure_reconciling mission at =
      if same_mission_state mission.entry.state MissionState.reconciling
        || same_mission_state mission.entry.state MissionState.completed
      then pure mission
      else if not (is_source mission.entry.state)
      then fail_reconciliation Code.mission_not_reconcilable
      else transition_mission max_cas_steps mission MissionState.reconciling at

  unfoldable pub mark_manual_review : StoredMission → Datetime → Call Stores StoredMission
  mark_manual_review mission at =
      if same_mission_state mission.entry.state MissionState.manual_review_required
      then pure mission
      else do
        reconciling ← ensure_reconciling mission at
        if same_mission_state reconciling.entry.state MissionState.completed
            then pure reconciling
            else transition_mission max_cas_steps reconciling MissionState.manual_review_required at

  -- The loop of `_project_confirmed_effect`: a step that confirms the effect and uses up the last
  -- iteration is not looked at again.
  unfoldable pub confirm_effect : ℕ → StoredMission → String → Datetime → Call Stores StoredMission
  confirm_effect zero mission ref at = fail_reconciliation Code.effect_cas_exhausted
  confirm_effect (suc n) mission ref at = do
    effect ← effect_named mission ref
    if is_confirmed effect then pure mission else elim (next_effect_state effect.state) [
      | none ↦ do
        reviewed ← mark_manual_review mission at
        fail_reconciliation Code.effect_terminal_contradiction
      | some target ↦ do
        moved ← transition_effect max_cas_steps mission ref target at
        confirm_effect n moved ref at
    ]

  -- The end of `_project_confirmed_effect`. Every effect state is in one of the sets, so its last
  -- line is never reached.
  unfoldable pub settle_mission : StoredMission → Datetime → Call Stores StoredMission
  settle_mission mission at =
      if any is_confirmed mission.entry.effects && all is_confirmed mission.entry.effects
      then transition_mission max_cas_steps mission MissionState.completed at
      else if any (λ (e : EffectRecord). is_dead e.state) mission.entry.effects
      then mark_manual_review mission at
      else if any (λ (e : EffectRecord). is_pending e.state) mission.entry.effects
      then pure mission
      else transition_mission max_cas_steps mission MissionState.ready_for_execution at

  unfoldable pub project_confirmed_effect :
      StoredMission → String → Datetime → Call Stores StoredMission
  project_confirmed_effect mission ref at = do
    reconciling ← ensure_reconciling mission at
    confirmed ← confirm_effect max_cas_steps reconciling ref at
    settle_mission confirmed at
