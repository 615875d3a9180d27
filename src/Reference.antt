-- ===== src/Reference.antt =====
-- src/nexus_vector/domain/provider_execution_references.py: the identifier that the provider gave to
-- the execution of an attempt.
use nexus_vector_keeperhub.Prelude.{String, Bool, not, ◌||◌, ◌==◌, ltb, length, any}
use nexus_vector_keeperhub.Prelude.Ids.{codes}
use nexus_vector_keeperhub.Errors.{ErrorClass, Code, Result, ok, ◌>>=◌, ◌>>◌, reject_if}
use nexus_vector_keeperhub.Clock.{Datetime, require_utc}
use nexus_vector_keeperhub.Runtime.{Runtime}
use nexus_vector_keeperhub.Plain.{is_control}
use nexus_vector_keeperhub.Attempt.{is_attempt_id, is_request_fingerprint}

pub record ProviderReference : Type 0 where
  pub attempt_id : String
  pub provider_namespace : String
  pub request_fingerprint : String
  pub provider_reference : String
  pub created_at_utc : Datetime

abbrev reject : Bool → Code → Result (Unit {0})
reject bad c = reject_if bad ErrorClass.reference c

unfoldable pub validate_attempt_id : String → Result String
validate_attempt_id value = do reject (not (is_attempt_id value)) Code.invalid_attempt_id; ok value

unfoldable pub validate_request_fingerprint : String → Result String
validate_request_fingerprint value = do
  reject (not (is_request_fingerprint value)) Code.invalid_request_fingerprint
  ok value

module _ (rt : Runtime) where
  -- `_required_text`: the text is normalised before it is checked.
  unfoldable pub reference_text : String → Code → Result String
  reference_text value c = do
    reject (value == "") c
    let normalized = rt.nfc value
    reject
        (normalized == ""
          || ltb 256 (length (codes normalized))
          || not (rt.strip normalized == normalized)
          || any is_control (codes normalized))
        c
    ok normalized

  unfoldable pub normalize_provider_namespace : String → Result String
  normalize_provider_namespace value = reference_text value Code.invalid_provider_namespace

  unfoldable pub normalize_provider_reference : String → Result String
  normalize_provider_reference value = reference_text value Code.invalid_provider_reference

  -- `ProviderExecutionReference(...)`: the checks and the normalisation of `__post_init__`
  unfoldable pub make_reference : ProviderReference → Result ProviderReference
  make_reference r = do
    attempt ← validate_attempt_id r.attempt_id
    fingerprint ← validate_request_fingerprint r.request_fingerprint
    namespace ← normalize_provider_namespace r.provider_namespace
    reference ← normalize_provider_reference r.provider_reference
    at ← require_utc ErrorClass.reference r.created_at_utc
    ok (record r { provider_namespace = namespace; provider_reference = reference })
