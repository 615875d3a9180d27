-- ===== src/Attempt.antt =====
-- src/nexus_vector/domain/execution_attempts.py: the identity of an execution attempt, its plan,
-- its record and the one function that moves it. Arguments have the types that the signatures of
-- the source annotate, so `isinstance` guards on them hold; every other guard is here.
pub mod States
pub mod Moves
pub mod Fingerprint
use Prim.Native.String.{◌++◌ as str_append}
use nexus_vector_keeperhub.Prelude.{
  ℕ, String, Bool, true, false, not, ◌&&◌, ◌||◌, ltb, ◌==◌, if◌then◌else◌, length,
}
use nexus_vector_keeperhub.Prelude.Ids.{codes, full_match}
use nexus_vector_keeperhub.Errors.{
  Error, ErrorClass, Code, Result, ok, err, fail, ◌>>=◌, ◌>>◌, reject_if,
}
use nexus_vector_keeperhub.Clock.{Datetime, require_utc}
use nexus_vector_keeperhub.Runtime.{Runtime}
use States.{AttemptState, allowed}

-- `_fail(code)`
abbrev fail_attempt {ℓ} : {A : Type ℓ} → Code → Result A
fail_attempt = fail ErrorClass.attempt

abbrev reject : Bool → Code → Result (Unit {0})
reject bad c = reject_if bad ErrorClass.attempt c

-- `_MISSION_KEY_PATTERN`, `_EFFECT_ID_PATTERN`, `_ATTEMPT_ID_PATTERN` and
-- `_REQUEST_FINGERPRINT_PATTERN`, matched in full
unfoldable pub is_mission_key : String → Bool
is_mission_key s = full_match (codes "msn_") 64 (codes s)

unfoldable pub is_effect_id : String → Bool
is_effect_id s = full_match (codes "eff_") 64 (codes s)

unfoldable pub is_attempt_id : String → Bool
is_attempt_id s = full_match (codes "att_") 64 (codes s)

unfoldable pub is_request_fingerprint : String → Bool
is_request_fingerprint s = full_match (codes "xrf_") 64 (codes s)

pub record AttemptPlan : Type 0 where
  pub mission_key : String
  pub effect_id : String
  pub provider_namespace : String
  pub request_key : String
  pub request_fingerprint : String

pub record AttemptRecord : Type 0 where
  pub attempt_id : String
  pub plan : AttemptPlan
  pub state : AttemptState
  pub created_at_utc : Datetime
  pub updated_at_utc : Datetime

module _ (rt : Runtime) where
  unfoldable pub required_string : String → Code → Result String
  required_string value c = do
    reject (value == "") c
    let normalized = rt.nfc value
    reject (normalized == "" || ltb 256 (length (codes normalized))) c
    ok normalized

  unfoldable pub derive_attempt_id : String → Result String
  derive_attempt_id effect_id =
      if is_effect_id effect_id
      then ok (
          str_append "att_"
            (rt.sha256 (str_append "nexus-vector:execution-attempt:v1\0" effect_id)))
      else fail_attempt Code.invalid_effect_id

  -- `ExecutionAttemptPlan(...)`: the checks and the normalisation of `__post_init__`
  unfoldable pub make_plan : AttemptPlan → Result AttemptPlan
  unfolding required_string
  make_plan p = do
    reject (not (is_mission_key p.mission_key)) Code.invalid_mission_key
    reject (not (is_effect_id p.effect_id)) Code.invalid_effect_id
    namespace ← required_string p.provider_namespace Code.invalid_provider_namespace
    key ← required_string p.request_key Code.invalid_request_key
    reject (not (is_request_fingerprint p.request_fingerprint)) Code.invalid_request_fingerprint
    ok (record p { provider_namespace = namespace; request_key = key })

  -- `ExecutionAttemptRecord(...)`: the checks of `__post_init__`
  unfoldable pub make_record : AttemptRecord → Result AttemptRecord
  make_record r = do
    reject (not (is_attempt_id r.attempt_id)) Code.invalid_attempt_id
    expected ← derive_attempt_id r.plan.effect_id
    reject (not (r.attempt_id == expected)) Code.attempt_id_mismatch
    created ← require_utc ErrorClass.attempt r.created_at_utc
    updated ← require_utc ErrorClass.attempt r.updated_at_utc
    reject (ltb updated.instant created.instant) Code.reversed_timestamp
    ok r

  unfoldable pub create_initial_execution_attempt : AttemptPlan → Datetime → Result AttemptRecord
  create_initial_execution_attempt plan created_at_utc = do
    timestamp ← require_utc ErrorClass.attempt created_at_utc
    attempt_id ← derive_attempt_id plan.effect_id
    make_record (record {
      attempt_id = attempt_id;
      plan = plan;
      state = AttemptState.prepared;
      created_at_utc = timestamp;
      updated_at_utc = timestamp;
    })

  -- `replace(record, ...)` builds a new record, and so runs its checks again.
  unfoldable pub transition_execution_attempt :
      AttemptRecord → AttemptState → Datetime → Result AttemptRecord
  transition_execution_attempt r target_state updated_at_utc = do
    timestamp ← require_utc ErrorClass.attempt updated_at_utc
    reject (ltb timestamp.instant r.updated_at_utc.instant) Code.timestamp_before_current
    reject (not (allowed r.state target_state)) Code.attempt_transition_not_allowed
    make_record (record r { state = target_state; updated_at_utc = timestamp })
