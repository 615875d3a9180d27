-- ===== src/KeeperHub/Replies.antt =====
-- src/nexus_vector/integrations/keeperhub_direct_execution.py: what the replies of the provider stand
-- for. Of the body of a reply the members that the code reads are here.
use nexus_vector_keeperhub.Prelude.{
  ℕ, String, Bool, true, false, not, ◌&&◌, ◌||◌, ◌==◌, nat_eq, if◌then◌else◌,
}
use nexus_vector_keeperhub.Errors.{ErrorClass, Code, Result, ok, fail, ◌>>=◌, ◌>>◌}
use nexus_vector_keeperhub.Runtime.{Runtime}
use nexus_vector_keeperhub.Plain.{is_unplain}
use nexus_vector_keeperhub.ReferencePort.{ProviderResult}

-- A value under a key: a Boolean, a text, any other value, a list or an object, which no set can
-- be asked for, or nothing.
pub data Value : Type 0 where
  truth : Bool → Value
  text : String → Value
  other unhashable absent : Value

pub record TransportResponse : Type 0 where
  pub status_code : ℕ
  pub success : Value
  pub status : Value
  pub would_revert : Value
  pub execution_id : Value

-- What `post_transfer` comes back with: a response, any other object, or an exception.
pub data TransportReply : Type 0 where
  response : TransportResponse → TransportReply
  not_a_response raised : TransportReply

-- What a simulation says: `None`, or a result with REJECTED_FINAL.
pub data Simulated : Type 0 where
  eligible rejected_final : Simulated

abbrev fail_direct {ℓ} : {A : Type ℓ} → Code → Result A
fail_direct = fail ErrorClass.direct

-- `response.status_code in {401, 403, 422}`
abbrev pub is_refusal : ℕ → Bool
is_refusal n = nat_eq n 401 || nat_eq n 403 || nat_eq n 422

abbrev pub is_truth : Bool → Value → Bool
is_truth true (truth b) = b
is_truth false (truth b) = not b
is_truth _ _ = false

abbrev pub is_text : String → Value → Bool
is_text s (text t) = t == s
is_text s _ = false

-- `success is False` and so on, in the rejection of a simulation
abbrev pub is_revert : TransportResponse → Bool
is_revert r =
    is_truth false r.success && is_text "simulated" r.status && is_truth true r.would_revert

-- The checks of a simulation with status 200.
abbrev pub judge_simulation : Value → Value → Value → Result Simulated
judge_simulation (truth success) (truth would_revert) status =
    if not success || would_revert
    then ok Simulated.rejected_final
    else if is_text "simulated" status
    then ok Simulated.eligible
    else fail_direct Code.invalid_simulation_status
judge_simulation _ _ status = fail_direct Code.invalid_simulation_response

unfoldable pub classify_simulation : TransportReply → Result Simulated
classify_simulation raised = fail ErrorClass.foreign Code.unexpected
classify_simulation not_a_response = fail_direct Code.invalid_simulation_response
classify_simulation (response r) =
    if is_refusal r.status_code
    then ok Simulated.rejected_final
    else if nat_eq r.status_code 400
    then (if is_revert r
        then ok Simulated.rejected_final
        else fail_direct Code.invalid_simulation_rejection)
    else if not (nat_eq r.status_code 200)
    then fail_direct Code.simulation_outcome_unknown
    else judge_simulation r.success r.would_revert r.status

-- `status not in _OFFICIAL_EXECUTION_STATUSES`: a value without a hash is a `TypeError`.
abbrev pub check_status : Value → Result (Unit {0})
check_status unhashable = fail ErrorClass.foreign Code.unexpected
check_status (text s) =
    if s == "pending" || s == "running" || s == "completed" || s == "failed"
    then ok tt
    else fail_direct Code.invalid_broadcast_status
check_status _ = fail_direct Code.invalid_broadcast_status

module _ (rt : Runtime) where
  abbrev pub check_execution_id : Value → Result String
  check_execution_id (text id) =
      if is_unplain rt id then fail_direct Code.invalid_execution_id else ok id
  check_execution_id _ = fail_direct Code.invalid_execution_id

  unfoldable pub classify_broadcast : TransportReply → Result ProviderResult
  classify_broadcast raised = fail ErrorClass.foreign Code.unexpected
  classify_broadcast not_a_response = fail_direct Code.invalid_broadcast_response
  classify_broadcast (response r) =
      if is_refusal r.status_code
      then ok ProviderResult.rejected
      else if not (nat_eq r.status_code 202)
      then fail_direct Code.broadcast_outcome_unknown
      else do
        id ← check_execution_id r.execution_id
        check_status r.status
        ok (ProviderResult.accepted_as id)
