-- ===== src/KeeperHub/Broadcast.antt =====
-- src/nexus_vector/integrations/keeperhub_controlled_execution.py: the port that broadcasts a transfer
-- once, under an approval that was given for the receipt of its simulation.
use nexus_vector_keeperhub.Prelude.{
  Bool, true, false, not, ◌&&◌, ◌||◌, some, ◌==◌, ltb, nat_eq, if◌then◌else◌,
}
use nexus_vector_keeperhub.Errors.{ErrorClass, Code, Result, ok, err, fail}
use nexus_vector_keeperhub.Calls.{Call, ◌>>=◌, ◌>>◌, pure, lift, raise}
use nexus_vector_keeperhub.Runtime.{Runtime, Json}
use nexus_vector_keeperhub.Attempt.{AttemptRecord}
use nexus_vector_keeperhub.Attempt.States.{AttemptState, same}
use nexus_vector_keeperhub.Persistence.AuthorizationLedger.{
  Phase, LedgerState, AuthorizationRecord, initialize,
}
use nexus_vector_keeperhub.ReferencePort.{ProviderResult}
use nexus_vector_keeperhub.KeeperHub.Intent.{TransferIntent, simulation_body, broadcast_body}
use nexus_vector_keeperhub.KeeperHub.Replies.{classify_broadcast}
use nexus_vector_keeperhub.KeeperHub.Approvals.{
  SimulationDecision, SimulationReceipt, BroadcastAuthorization, fingerprint_of,
  validate_plan_intent,
}
use nexus_vector_keeperhub.KeeperHub.Controlled.{
  Transport, Controls, claim_of, on_ledger, post_transfer, finalize_best_effort, claim_approval,
  load_receipt, give_up,
}

-- The fields of a `KeeperHubApprovedBroadcastPort` that its constructor checks.
pub record BroadcastPort : Type 0 where
  pub intent : TransferIntent
  pub receipt : SimulationReceipt
  pub authorization : BroadcastAuthorization

abbrev same_decision : SimulationDecision → SimulationDecision → Bool
same_decision SimulationDecision.eligible_for_broadcast_approval
      SimulationDecision.eligible_for_broadcast_approval =
    true
same_decision SimulationDecision.rejected_final SimulationDecision.rejected_final = true
same_decision _ _ = false

-- `durable_receipt == simulation_receipt`
unfoldable pub same_receipt : SimulationReceipt → SimulationReceipt → Bool
same_receipt x y =
    x.action_sheet_id == y.action_sheet_id
    && x.approval_reference == y.approval_reference
    && x.attempt_id == y.attempt_id
    && x.request_fingerprint == y.request_fingerprint
    && x.simulation_body_fingerprint == y.simulation_body_fingerprint
    && same_decision x.decision y.decision
    && nat_eq x.simulated_at_utc.instant y.simulated_at_utc.instant

-- The guards of the constructor before it reads the ledger.
unfoldable pub check_broadcast : Runtime → BroadcastPort → Result (Unit {0})
check_broadcast rt p =
    let r = p.receipt in
    let a = p.authorization in
    if not (same_decision r.decision SimulationDecision.eligible_for_broadcast_approval)
    then fail ErrorClass.controlled Code.simulation_not_eligible
    else if a.approval_reference == r.approval_reference
    then fail ErrorClass.controlled Code.approval_reference_reuse
    else if not (a.action_sheet_id == r.action_sheet_id)
        || not (a.attempt_id == r.attempt_id)
        || not (a.request_fingerprint == r.request_fingerprint)
        || not (a.simulation_body_fingerprint == r.simulation_body_fingerprint)
    then fail ErrorClass.controlled Code.broadcast_authorization_mismatch
    else if ltb a.approved_at_utc.instant r.simulated_at_utc.instant
    then fail ErrorClass.controlled Code.broadcast_approved_before_simulation
    else elim (simulation_body p.intent) [
      | err e ↦ err e
      | ok body ↦
          if fingerprint_of rt body == r.simulation_body_fingerprint
          then ok tt
          else fail ErrorClass.controlled Code.simulation_body_fingerprint_mismatch
    ]

-- The guards of `execute` before the claim.
unfoldable pub check_attempt : Runtime → BroadcastPort → AttemptRecord → Result (Unit {0})
check_attempt rt p attempt =
    if not (same attempt.state AttemptState.in_flight)
    then fail ErrorClass.controlled Code.attempt_not_in_flight
    else elim (validate_plan_intent rt attempt.plan p.intent) [
      | err e ↦ err e
      | ok _ ↦
          if not (attempt.attempt_id == p.receipt.attempt_id)
            || not (attempt.plan.request_fingerprint == p.receipt.request_fingerprint)
          then fail ErrorClass.controlled Code.broadcast_attempt_mismatch
          else if ltb attempt.updated_at_utc.instant p.authorization.approved_at_utc.instant
              || ltb p.authorization.expires_at_utc.instant attempt.updated_at_utc.instant
          then fail ErrorClass.controlled Code.broadcast_authorization_expired
          else ok tt
    ]

-- The state that an approval takes after a broadcast.
abbrev pub target_of_broadcast : ProviderResult → LedgerState
target_of_broadcast (ProviderResult.accepted_as _) = LedgerState.accepted
target_of_broadcast ProviderResult.rejected = LedgerState.rejected_final

module _ {Q : Type 0} (rt : Runtime) where
  -- The constructor.
  unfoldable pub make_broadcast_port : BroadcastPort → Call (Controls Q) BroadcastPort
  make_broadcast_port p = do
    lift (check_broadcast rt p)
    on_ledger initialize
    durable ← load_receipt rt p.receipt.approval_reference
    if same_receipt durable p.receipt
        then pure p
        else raise ErrorClass.controlled Code.simulation_receipt_mismatch

  -- The claim of a broadcast, up to the call of the transport.
  unfoldable pub claim_broadcast :
      BroadcastPort → AttemptRecord → Call (Controls Q) (AuthorizationRecord × Json)
  claim_broadcast p attempt = do
    lift (check_attempt rt p attempt)
    body ← lift (broadcast_body p.intent)
    let r =
        claim_of p.authorization.approval_reference Phase.broadcast p.authorization.action_sheet_id
          attempt.plan attempt.attempt_id (fingerprint_of rt body) attempt.updated_at_utc
    claimed ← claim_approval rt r
    pure (r, body)

  -- `execute` after the transport has come back: the finalisation may fail, since the claim already
  -- prevents another call.
  unfoldable pub settle_broadcast :
      BroadcastPort → AttemptRecord → Result ProviderResult → Call (Controls Q) ProviderResult
  settle_broadcast p attempt (err e) =
      give_up rt p.authorization.approval_reference attempt.updated_at_utc
        Code.broadcast_outcome_unknown
  settle_broadcast p attempt (ok result) = do
    kept ←
        finalize_best_effort rt p.authorization.approval_reference (target_of_broadcast result)
          attempt.updated_at_utc
    pure result

  unfoldable pub execute :
      Transport Q → BroadcastPort → AttemptRecord → Call (Controls Q) ProviderResult
  execute transport p attempt = do
    claimed ← claim_broadcast p attempt
    λ s.
        let (reply, s') =
          post_transfer transport claimed.0
            (record { body = claimed.1; idempotency_key = some attempt.plan.request_key }) s in
        settle_broadcast p attempt (classify_broadcast rt reply) s'
