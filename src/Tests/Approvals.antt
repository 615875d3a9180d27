-- ===== src/Tests/Approvals.antt =====
-- The ledger of approvals, amounts and simulations at concrete inputs.
use nexus_vector_keeperhub.Prelude.{
  ℕ, suc, ◌≤◌, String, ◌≡◌, ◌≢◌, refl, inl, inr, true, none, some, List, [], ◌∷◌, arith,
}
use nexus_vector_keeperhub.Errors.{Error, ok, err}
use nexus_vector_keeperhub.Clock.{utc}
use nexus_vector_keeperhub.Attempt.{AttemptPlan, required_string}
use nexus_vector_keeperhub.Attempt.Fingerprint.{
  derive_request_fingerprint, normalize_json, has_key, insert_member,
}
use nexus_vector_keeperhub.Plain.{is_unplain, plain_text}
use nexus_vector_keeperhub.Persistence.AuthorizationLedger.{
  Phase, LedgerState, AuthorizationRecord, LedgerDb, initialize, open_rows, finalise_rows,
  is_body_fingerprint, body_fingerprint, make_authorization, load, load_for_attempt,
  claim_operation, claim, check_final, transition_operation, transition, get,
}
use nexus_vector_keeperhub.Persistence.AuthorizationLedger.Once.{
  here, next, moves, claim_consumes, load_final,
}
use nexus_vector_keeperhub.Persistence.AuthorizationLedger.Finalised.{
  IsFinalised, transition-IsFinalised,
}
use nexus_vector_keeperhub.KeeperHub.Amounts.{
  digit_char, padded, decimal, rstrip, amount_base_units_to_decimal_string,
}
use nexus_vector_keeperhub.KeeperHub.Amounts.Exact.{base_units, amount_exact}
use nexus_vector_keeperhub.KeeperHub.Intent.{TransferIntent, request_material, simulation_body}
use nexus_vector_keeperhub.KeeperHub.Replies.{Value, TransportReply, classify_simulation}
use nexus_vector_keeperhub.KeeperHub.Approvals.{
  SimulationAuthorization, timely, body_text, make_receipt, fingerprint_of, validate_plan_intent,
  receipt_from_record,
}
use nexus_vector_keeperhub.KeeperHub.Controlled.{
  Transport, Controls, simulate, settle_simulation, claim_simulation, check_simulation,
  prepare_attempt, load_receipt, give_up, claim_approval, finalize_best_effort, post_transfer,
  controlled_error,
}
use nexus_vector_keeperhub.KeeperHub.OnePost.{count_posts, simulates, at_most_one_post}
use nexus_vector_keeperhub.KeeperHub.OnePost
use nexus_vector_keeperhub.Tests.Fixtures.{toy, executable, plan_a, attempt_a, anna, token}

-- What a run of the ledger, or of a simulation, computes through.
unfoldable ledger_runs : Unit {0}
unfolding executable is_unplain plain_text initialize open_rows finalise_rows is_body_fingerprint
    body_fingerprint make_authorization load load_for_attempt claim_operation claim check_final
    transition_operation transition get required_string derive_request_fingerprint normalize_json
    has_key insert_member digit_char padded decimal rstrip amount_base_units_to_decimal_string
    request_material simulation_body classify_simulation timely body_text make_receipt
    fingerprint_of validate_plan_intent receipt_from_record simulate settle_simulation
    claim_simulation check_simulation prepare_attempt load_receipt give_up claim_approval
    finalize_best_effort post_transfer controlled_error
ledger_runs = tt

abbrev claim_a : AuthorizationRecord
claim_a = record {
  approval_reference = "approval-1";
  phase = Phase.simulation;
  action_sheet_id = "sheet-1";
  attempt_id = attempt_a;
  request_fingerprint = plan_a.request_fingerprint;
  body_fingerprint = "khb_aaaaaaaaaaaaaaaaaaaaaaaaaaaaaaaaaaaaaaaaaaaaaaaaaaaaaaaaaaaaaaaa";
  state = LedgerState.claimed;
  claimed_at_utc = utc 5;
  updated_at_utc = utc 5;
}

abbrev ledger_0 : LedgerDb
ledger_0 = record { tables = []; faults = [] }

abbrev ledger_1 : LedgerDb
ledger_1 = (claim toy claim_a ledger_0).1

abbrev ledger_2 : LedgerDb
ledger_2 = (transition toy "approval-1" LedgerState.rejected_final (utc 6) ledger_1).1

abbrev rejected_a : AuthorizationRecord
rejected_a = record claim_a { state = LedgerState.rejected_final; updated_at_utc = utc 6 }

claims_a : (claim toy claim_a ledger_0).0 ≡ ok claim_a
unfolding ledger_runs
claims_a = refl

rejects_a :
    (transition toy "approval-1" LedgerState.rejected_final (utc 6) ledger_1).0 ≡ ok rejected_a
unfolding ledger_runs
rejects_a = refl

claim_consumes_example :
    (e : Error) × ((claim toy (record claim_a { approval_reference = "approval-2" }) ledger_2).0
      ≡ err e)
claim_consumes_example =
    claim_consumes toy ledger_0 {t = ledger_2} claim_a
      (record claim_a { approval_reference = "approval-2" }) {stored = claim_a} claims_a
      (next here (moves "approval-1" LedgerState.rejected_final (utc 6))) (inr (refl, refl))

transition-IsFinalised_example :
    IsFinalised toy "approval-1" LedgerState.rejected_final
      (utc 6)
      ledger_1.tables
      rejected_a
      ledger_2.tables
transition-IsFinalised_example =
    transition-IsFinalised toy "approval-1" LedgerState.rejected_final (utc 6) ledger_1 rejected_a
      rejects_a

final_a : load toy "approval-1" ledger_2.tables ≡ ok (some rejected_a)
unfolding ledger_runs
final_a = refl

load_final_example :
    load toy "approval-1"
      (transition toy "approval-1" LedgerState.outcome_unknown (utc 7) ledger_2).1.tables
    ≡ ok (some rejected_a)
load_final_example =
    load_final toy {db = ledger_2}
      {t = (transition toy "approval-1" LedgerState.outcome_unknown (utc 7) ledger_2).1}
      "approval-1" rejected_a final_a (λ h. ground (arith, h))
      (next here (moves "approval-1" LedgerState.outcome_unknown (utc 7)))

amount_text : amount_base_units_to_decimal_string 12500000 6 ≡ ok "12.5"
unfolding ledger_runs
amount_text = refl

amount_exact_example :
    (t : String) × (amount_base_units_to_decimal_string 12500000 6 ≡ ok t)
    × (base_units 6 0 t ≡ 12500000)
amount_exact_example = amount_exact 12500000 6 (omega arith) (omega arith)

-- A simulation that the provider answers, and a second one for the same attempt.
abbrev intent_a : TransferIntent
intent_a = record {
  chain_id = 84532;
  recipient_address = anna;
  amount_base_units = 12;
  token_address = token;
  token_decimals = 6;
  gas_limit_multiplier = none;
}

abbrev direct_plan : AttemptPlan
direct_plan = record plan_a { provider_namespace = "keeperhub.direct.v1" }

abbrev approval_a : SimulationAuthorization
approval_a = record {
  action_sheet_id = "sheet-1";
  approval_reference = "approval-1";
  attempt_id = attempt_a;
  request_fingerprint = plan_a.request_fingerprint;
  authorized_at_utc = utc 4;
  expires_at_utc = utc 9;
}

abbrev answering : Transport ℕ
answering post n = (
  TransportReply.response (record {
    status_code = 200;
    success = Value.truth true;
    status = Value.text "simulated";
    would_revert = Value.truth nexus_vector_keeperhub.Prelude.false;
    execution_id = Value.absent;
  }),
  suc n,
)

abbrev controls_0 : Controls ℕ
controls_0 = record {
  attempts = record { tables = []; faults = [] };
  ledger = record { tables = []; faults = [] };
  transport = 0;
  posts = [];
}

abbrev controls_1 : Controls ℕ
controls_1 = (simulate toy answering intent_a direct_plan approval_a (utc 5) controls_0).1

abbrev controls_2 : Controls ℕ
controls_2 =
    (simulate toy answering intent_a direct_plan
      (record approval_a { approval_reference = "approval-2" }) (utc 6) controls_1).1

called_once : controls_2.transport ≡ 1
unfolding ledger_runs
called_once = refl

at_most_one_post_example : count_posts Phase.simulation attempt_a controls_2.posts ≤ 1
at_most_one_post_example =
    at_most_one_post toy answering Phase.simulation attempt_a {s = controls_0} {t = controls_2} refl
      (OnePost.next (OnePost.next OnePost.here (simulates intent_a direct_plan approval_a (utc 5)))
        (simulates intent_a direct_plan (record approval_a { approval_reference = "approval-2" })
          (utc 6)))
