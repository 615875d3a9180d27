-- ===== src/KeeperHub/Approvals.antt =====
-- src/nexus_vector/integrations/keeperhub_controlled_execution.py: the approvals of a simulation and of
-- a broadcast, the receipt of a simulation, and the checks that they share.
use Prim.Native.String.{◌++◌ as str_append}
use nexus_vector_keeperhub.Prelude.{String, Bool, not, ◌==◌, ltb}
use nexus_vector_keeperhub.Errors.{
  ErrorClass, Code, Result, ok, fail, ◌>>=◌, ◌>>◌, reject_if, map_err,
}
use nexus_vector_keeperhub.Clock.{Datetime, require_utc}
use nexus_vector_keeperhub.Runtime.{Runtime, Json}
use nexus_vector_keeperhub.Plain.{plain_text}
use nexus_vector_keeperhub.Attempt.{AttemptPlan}
use nexus_vector_keeperhub.Attempt.Fingerprint.{derive_request_fingerprint}
use nexus_vector_keeperhub.Persistence.AuthorizationLedger.{
  Phase, LedgerState, AuthorizationRecord, same_phase, is_body_fingerprint,
}
use nexus_vector_keeperhub.KeeperHub.Intent.{TransferIntent, request_material}

pub record SimulationAuthorization : Type 0 where
  pub action_sheet_id : String
  pub approval_reference : String
  pub attempt_id : String
  pub request_fingerprint : String
  pub authorized_at_utc : Datetime
  pub expires_at_utc : Datetime

pub data SimulationDecision : Type 0 where
  eligible_for_broadcast_approval rejected_final : SimulationDecision

pub record SimulationReceipt : Type 0 where
  pub action_sheet_id : String
  pub approval_reference : String
  pub attempt_id : String
  pub request_fingerprint : String
  pub simulation_body_fingerprint : String
  pub decision : SimulationDecision
  pub simulated_at_utc : Datetime

pub record BroadcastAuthorization : Type 0 where
  pub action_sheet_id : String
  pub approval_reference : String
  pub attempt_id : String
  pub request_fingerprint : String
  pub simulation_body_fingerprint : String
  pub approved_at_utc : Datetime
  pub expires_at_utc : Datetime
  pub runtime_flag : String

abbrev reject : Bool → Code → Result (Unit {0})
reject bad c = reject_if bad ErrorClass.controlled c

-- `_utc(value, code)`: every defect of a timestamp has the one code.
unfoldable pub timely : Datetime → Code → Result Datetime
timely t c =
    map_err (λ e. record { class = ErrorClass.controlled; code = c })
      (require_utc ErrorClass.controlled t)

module _ (rt : Runtime) where
  -- `_required_text`
  abbrev pub approval_text : String → Code → Result String
  approval_text value c = plain_text rt ErrorClass.controlled value c

  -- The check of a fingerprint that the receipt and the approval of a broadcast repeat.
  unfoldable pub body_text : String → Result String
  body_text value = do
    fingerprint ← approval_text value Code.invalid_simulation_body_fingerprint
    reject (not (is_body_fingerprint fingerprint)) Code.invalid_simulation_body_fingerprint
    ok fingerprint

  -- `KeeperHubSimulationAuthorization(...)`: the checks of `__post_init__`
  unfoldable pub make_simulation_authorization :
      SimulationAuthorization → Result SimulationAuthorization
  make_simulation_authorization a = do
    sheet ← approval_text a.action_sheet_id Code.invalid_action_sheet_id
    reference ← approval_text a.approval_reference Code.invalid_simulation_approval
    attempt ← approval_text a.attempt_id Code.invalid_attempt_id
    request ← approval_text a.request_fingerprint Code.invalid_request_fingerprint
    authorized ← timely a.authorized_at_utc Code.invalid_authorized_at
    expires ← timely a.expires_at_utc Code.invalid_expires_at
    reject (not (ltb authorized.instant expires.instant)) Code.invalid_authorization_window
    ok a

  -- `KeeperHubSimulationReceipt(...)`: the checks of `__post_init__`
  unfoldable pub make_receipt : SimulationReceipt → Result SimulationReceipt
  make_receipt r = do
    sheet ← approval_text r.action_sheet_id Code.invalid_action_sheet_id
    reference ← approval_text r.approval_reference Code.invalid_simulation_approval
    attempt ← approval_text r.attempt_id Code.invalid_attempt_id
    request ← approval_text r.request_fingerprint Code.invalid_request_fingerprint
    body ← body_text r.simulation_body_fingerprint
    at ← timely r.simulated_at_utc Code.invalid_simulated_at
    ok r

  -- `KeeperHubBroadcastAuthorization(...)`: the checks of `__post_init__`
  unfoldable pub make_broadcast_authorization :
      BroadcastAuthorization → Result BroadcastAuthorization
  make_broadcast_authorization a = do
    sheet ← approval_text a.action_sheet_id Code.invalid_action_sheet_id
    reference ← approval_text a.approval_reference Code.invalid_broadcast_approval
    attempt ← approval_text a.attempt_id Code.invalid_attempt_id
    request ← approval_text a.request_fingerprint Code.invalid_request_fingerprint
    body ← body_text a.simulation_body_fingerprint
    approved ← timely a.approved_at_utc Code.invalid_approved_at
    expires ← timely a.expires_at_utc Code.invalid_expires_at
    reject (not (ltb approved.instant expires.instant)) Code.invalid_authorization_window
    reject (not (a.runtime_flag == "--approve-testnet-write")) Code.invalid_broadcast_runtime_flag
    ok a

  -- `_body_fingerprint`
  unfoldable pub fingerprint_of : Json → String
  fingerprint_of body =
      str_append "khb_" (rt.sha256 (str_append "nexus-vector:keeperhub-body:v1\0" (rt.dumps body)))

  unfoldable pub validate_plan_intent : AttemptPlan → TransferIntent → Result (Unit {0})
  validate_plan_intent plan intent = do
    reject (not (plan.provider_namespace == "keeperhub.direct.v1")) Code.provider_namespace_mismatch
    expected ←
        derive_request_fingerprint rt plan.provider_namespace plan.request_key
          (request_material intent)
    reject (not (expected == plan.request_fingerprint)) Code.request_fingerprint_mismatch
    ok tt

  abbrev pub decision_of : LedgerState → Result SimulationDecision
  decision_of LedgerState.eligible_for_broadcast_approval = ok eligible_for_broadcast_approval
  decision_of LedgerState.rejected_final = ok rejected_final
  decision_of _ = fail ErrorClass.controlled Code.simulation_receipt_not_final

  unfoldable pub receipt_from_record : AuthorizationRecord → Result SimulationReceipt
  receipt_from_record r = do
    reject (not (same_phase r.phase Phase.simulation)) Code.simulation_receipt_not_found
    decision ← decision_of r.state
    make_receipt (record {
      action_sheet_id = r.action_sheet_id;
      approval_reference = r.approval_reference;
      attempt_id = r.attempt_id;
      request_fingerprint = r.request_fingerprint;
      simulation_body_fingerprint = r.body_fingerprint;
      decision = decision;
      simulated_at_utc = r.updated_at_utc;
    })
