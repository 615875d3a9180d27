-- ===== src/KeeperHub/Controlled.antt =====
-- src/nexus_vector/integrations/keeperhub_controlled_execution.py: one simulation and one broadcast for
-- each approval. The transport is a protocol, so it is a parameter; the state is the attempt journal,
-- the ledger of approvals, the state of the transport, and the list of the calls made to it, the
-- latest first.
pub mod Claims
pub mod Posts
use nexus_vector_keeperhub.Prelude.{
  ℕ, String, Bool, true, false, not, ◌&&◌, ◌||◌, Option, none, some, List, [], ◌∷◌, ◌==◌, ltb,
  nat_eq, if◌then◌else◌,
}
use nexus_vector_keeperhub.Errors.{Error, ErrorClass, Code, Result, ok, err, fail, map_err}
use nexus_vector_keeperhub.Calls.{Call, ◌>>=◌, ◌>>◌, pure, lift, raise}
use nexus_vector_keeperhub.Clock.{Datetime}
use nexus_vector_keeperhub.Runtime.{Runtime, Json}
use nexus_vector_keeperhub.Attempt.{
  AttemptPlan, AttemptRecord, derive_attempt_id, create_initial_execution_attempt,
}
use nexus_vector_keeperhub.Attempt.States.{AttemptState, same}
use nexus_vector_keeperhub.Persistence.AttemptStore.{AttemptDb, StoredAttempt, initialize, create}
use nexus_vector_keeperhub.Persistence.AuthorizationLedger.{
  Phase, LedgerState, AuthorizationRecord, LedgerDb, make_authorization, claim, transition, get,
  initialize as initialize_ledger,
}
use nexus_vector_keeperhub.ReferencePort.{ProviderResult}
use nexus_vector_keeperhub.KeeperHub.Intent.{TransferIntent, simulation_body, broadcast_body}
use nexus_vector_keeperhub.KeeperHub.Replies.{
  TransportReply, Simulated, classify_simulation, classify_broadcast,
}
use nexus_vector_keeperhub.KeeperHub.Approvals.{
  SimulationAuthorization, SimulationDecision, SimulationReceipt, BroadcastAuthorization, timely,
  approval_text, fingerprint_of, validate_plan_intent, receipt_from_record,
}

-- `post_transfer(body, idempotency_key=...)`
pub record Post : Type 0 where
  pub body : Json
  pub idempotency_key : Option String

abbrev pub Transport : Type 0 → Type 0
Transport Q = Post → Q → TransportReply × Q

-- A call of the transport, with the approval and the phase and attempt it was made for.
pub record Posted : Type 0 where
  pub approval_reference : String
  pub phase : Phase
  pub attempt_id : String
  pub post : Post

pub record Controls (Q : Type 0) : Type 0 where
  pub attempts : AttemptDb
  pub ledger : LedgerDb
  pub transport : Q
  pub posts : List Posted

-- `_ledger_call` and `_attempt_store_call`
unfoldable pub controlled_error : Error → Error
controlled_error e = elim e.class [
  | ErrorClass.ledger ↦ record { class = ErrorClass.controlled; code = e.code }
  | ErrorClass.attempt_store ↦ record { class = ErrorClass.controlled; code = e.code }
  | _ ↦ e
]

-- `except SQLiteKeeperHubAuthorizationLedgerError: return False`
abbrev pub finalised : {A : Type 0} → Result A → Result Bool
finalised (ok _) = ok true
finalised (err e) = elim e.class [ ErrorClass.ledger ↦ ok false | _ ↦ err e ]

-- The record that is claimed before a call of the transport.
abbrev pub claim_of :
    String → Phase → String → AttemptPlan → String → String → Datetime → AuthorizationRecord
claim_of reference phase sheet plan attempt_id body at = record {
  approval_reference = reference;
  phase = phase;
  action_sheet_id = sheet;
  attempt_id = attempt_id;
  request_fingerprint = plan.request_fingerprint;
  body_fingerprint = body;
  state = LedgerState.claimed;
  claimed_at_utc = at;
  updated_at_utc = at;
}

abbrev pub target_of_simulation : Simulated → LedgerState
target_of_simulation Simulated.eligible = LedgerState.eligible_for_broadcast_approval
target_of_simulation Simulated.rejected_final = LedgerState.rejected_final

-- The guards of `simulate` before any write; the result is the identifier of the attempt.
unfoldable pub check_simulation :
    Runtime → TransferIntent → AttemptPlan → SimulationAuthorization → Datetime → Result String
check_simulation rt intent plan a at = elim (validate_plan_intent rt plan intent) [
  | err e ↦ err e
  | ok _ ↦ elim (timely at Code.invalid_simulated_at) [
    | err e ↦ err e
    | ok observed ↦ elim (derive_attempt_id rt plan.effect_id) [
      | err e ↦ err e
      | ok id ↦
          if not (a.attempt_id == id) || not (a.request_fingerprint == plan.request_fingerprint)
          then fail ErrorClass.controlled Code.simulation_authorization_mismatch
          else if ltb at.instant a.authorized_at_utc.instant
              || ltb a.expires_at_utc.instant at.instant
          then fail ErrorClass.controlled Code.simulation_authorization_expired
          else ok id
    ]
  ]
]

module _ {Q : Type 0} where
  abbrev pub on_ledger : {A : Type 0} → Call LedgerDb A → Call (Controls Q) A
  on_ledger m s = let (r, db) = m s.ledger in (map_err controlled_error r, record s { ledger = db })

  abbrev pub on_journal : {A : Type 0} → Call AttemptDb A → Call (Controls Q) A
  on_journal m s =
      let (r, db) = m s.attempts in (map_err controlled_error r, record s { attempts = db })

  -- `self._transport.post_transfer(...)`
  unfoldable pub post_transfer :
      Transport Q → AuthorizationRecord → Post → Controls Q → TransportReply × Controls Q
  post_transfer transport r post s =
      let (reply, q) = transport post s.transport in
      (
        reply,
        record s {
          transport = q;
          posts =
              record {
                approval_reference = r.approval_reference;
                phase = r.phase;
                attempt_id = r.attempt_id;
                post = post;
              }
              ∷ s.posts;
        },
      )

module _ {Q : Type 0} (rt : Runtime) where
  unfoldable pub finalize_best_effort : String → LedgerState → Datetime → Call (Controls Q) Bool
  finalize_best_effort reference target at s =
      let (r, db) = transition rt reference target at s.ledger in
      (finalised r, record s { ledger = db })

  -- The claim, with the construction of its record.
  unfoldable pub claim_approval : AuthorizationRecord → Call (Controls Q) AuthorizationRecord
  claim_approval r = do
    made ← lift (map_err controlled_error (make_authorization rt r))
    on_ledger (claim rt made)

  abbrev found_receipt : Option AuthorizationRecord → Call (Controls Q) SimulationReceipt
  found_receipt none = raise ErrorClass.controlled Code.simulation_receipt_not_found
  found_receipt (some r) = lift (receipt_from_record rt r)

  unfoldable pub load_receipt : String → Call (Controls Q) SimulationReceipt
  load_receipt reference = do
    on_ledger initialize_ledger
    key ← lift (approval_text rt reference Code.invalid_simulation_approval)
    found ← on_ledger (get rt key)
    found_receipt found

  -- The outcome is unknown: the approval stays consumed.
  unfoldable pub give_up : {A : Type 0} → String → Datetime → Code → Call (Controls Q) A
  give_up reference at c s =
      let (r, s') = finalize_best_effort reference LedgerState.outcome_unknown at s in
      elim r [ ok _ ↦ (fail ErrorClass.controlled c, s') | err e ↦ (err e, s') ]

  -- `simulate` after the transport has come back
  unfoldable pub settle_simulation :
      String → Datetime → Result Simulated → Call (Controls Q) SimulationReceipt
  settle_simulation reference at (err e) = give_up reference at Code.simulation_outcome_unknown
  settle_simulation reference at (ok d) = do
    kept ← finalize_best_effort reference (target_of_simulation d) at
    if kept
        then load_receipt reference
        else raise ErrorClass.controlled Code.simulation_receipt_persistence_failed

  -- The durable PREPARED attempt that a simulation wants.
  unfoldable pub prepare_attempt : AttemptPlan → Datetime → Call (Controls Q) StoredAttempt
  prepare_attempt plan at = do
    on_journal initialize
    initial ← lift (create_initial_execution_attempt rt plan at)
    prepared ← on_journal (create rt initial)
    if same prepared.entry.state AttemptState.prepared
        then pure prepared
        else raise ErrorClass.controlled Code.reconciliation_required

  -- The claim of a simulation, up to the call of the transport.
  unfoldable pub claim_simulation :
      TransferIntent
      → AttemptPlan
      → SimulationAuthorization
      → Datetime
      → Call (Controls Q) (AuthorizationRecord × Json)
  claim_simulation intent plan a at = do
    id ← lift (check_simulation rt intent plan a at)
    prepared ← prepare_attempt plan at
    body ← lift (simulation_body intent)
    on_ledger initialize_ledger
    claimed ← claim_approval (
        claim_of a.approval_reference Phase.simulation a.action_sheet_id plan id
          (fingerprint_of rt body) at)
    pure (
      claim_of a.approval_reference Phase.simulation a.action_sheet_id plan id
          (fingerprint_of rt body) at,
      body,
    )

  unfoldable pub simulate :
      Transport Q
      → TransferIntent
      → AttemptPlan
      → SimulationAuthorization
      → Datetime
      → Call (Controls Q) SimulationReceipt
  simulate transport intent plan a at = do
    claimed ← claim_simulation intent plan a at
    λ s.
        let (reply, s') =
          post_transfer transport claimed.0 (record { body = claimed.1; idempotency_key = none })
            s in
        settle_simulation a.approval_reference at (classify_simulation reply) s'
