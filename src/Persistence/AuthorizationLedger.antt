-- ===== src/Persistence/AuthorizationLedger.antt =====
-- src/nexus_vector/persistence/sqlite_keeperhub_authorization_ledger.py: the ledger of approvals. An
-- approval is claimed before the one call of the provider that it stands for, and finalised after.
-- A row has the columns of `keeperhub_authorization_ledger`; `approval_reference` is the primary key
-- and (`phase`, `attempt_id`) is unique: the code tests both before it inserts.
pub mod Rows
pub mod Consumed
pub mod Once
pub mod Finalised
use nexus_vector_keeperhub.Prelude.{
  ℕ, zero, suc, String, Bool, true, false, not, ◌&&◌, ◌||◌, Option, none, some, List, [], ◌∷◌, ◌==◌,
  find, ltb, nat_eq, if◌then◌else◌,
}
use nexus_vector_keeperhub.Prelude.Ids.{codes, full_match}
use nexus_vector_keeperhub.Errors.{
  Error, ErrorClass, Code, Result, ok, err, fail, ◌>>=◌, ◌>>◌, reject_if, map_err,
}
use nexus_vector_keeperhub.Clock.{Datetime, utc, require_utc}
use nexus_vector_keeperhub.Runtime.{Runtime}
use nexus_vector_keeperhub.Plain.{plain_text}
use nexus_vector_keeperhub.Persistence.Database.{Database, write, read}

pub data Phase : Type 0 where
  simulation broadcast : Phase

pub data LedgerState : Type 0 where
  claimed eligible_for_broadcast_approval rejected_final outcome_unknown accepted : LedgerState

-- `a is b`
abbrev pub same_phase : Phase → Phase → Bool
same_phase Phase.simulation Phase.simulation = true
same_phase Phase.broadcast Phase.broadcast = true
same_phase _ _ = false

abbrev pub is_claimed : LedgerState → Bool
is_claimed LedgerState.claimed = true
is_claimed _ = false

-- `target_state in _ALLOWED_TRANSITIONS[phase]`
abbrev pub allowed_final : Phase → LedgerState → Bool
allowed_final Phase.simulation LedgerState.eligible_for_broadcast_approval = true
allowed_final Phase.broadcast LedgerState.accepted = true
allowed_final _ LedgerState.rejected_final = true
allowed_final _ LedgerState.outcome_unknown = true
allowed_final _ _ = false

pub record AuthorizationRecord : Type 0 where
  pub approval_reference : String
  pub phase : Phase
  pub action_sheet_id : String
  pub attempt_id : String
  pub request_fingerprint : String
  pub body_fingerprint : String
  pub state : LedgerState
  pub claimed_at_utc : Datetime
  pub updated_at_utc : Datetime

pub record LedgerRow : Type 0 where
  pub approval_reference : String
  pub phase : Phase
  pub action_sheet_id : String
  pub attempt_id : String
  pub request_fingerprint : String
  pub body_fingerprint : String
  pub state : LedgerState
  pub claimed_at : ℕ
  pub updated_at : ℕ

abbrev pub LedgerDb : Type 0
LedgerDb = Database (List LedgerRow)

abbrev reject : Bool → Code → Result (Unit {0})
reject bad c = reject_if bad ErrorClass.ledger c

-- `_serialize_timestamp`
abbrev pub serialize : Datetime → Result ℕ
serialize t = do u ← require_utc ErrorClass.ledger t; ok u.instant

-- The exceptions of the ledger pass through `_write` as they are.
abbrev pub unchanged : Error → Error
unchanged e = e

-- `initialize` on a database that has the schema already: its transaction changes nothing.
unfoldable pub initialize : LedgerDb → Result (Unit {0}) × LedgerDb
initialize = write ErrorClass.ledger unchanged (λ t. ok (tt, t))

-- `cursor.rowcount` and the rows of the `UPDATE` in `transition`
abbrev pub is_open : String → LedgerRow → Bool
is_open ref row = row.approval_reference == ref && is_claimed row.state

unfoldable pub open_rows : String → List LedgerRow → ℕ
open_rows ref [] = 0
open_rows ref (row ∷ t) = let rest = open_rows ref t in if is_open ref row then suc rest else rest

unfoldable pub finalise_rows : String → LedgerState → ℕ → List LedgerRow → List LedgerRow
finalise_rows ref target at [] = []
finalise_rows ref target at (row ∷ t) =
    (if is_open ref row then record row { state = target; updated_at = at } else row)
    ∷ finalise_rows ref target at t

unfoldable pub is_body_fingerprint : String → Bool
is_body_fingerprint s = full_match (codes "khb_") 64 (codes s)

-- `_decode` turns every exception into CORRUPT_RECORD.
abbrev pub corrupt_record_error : Error → Error
corrupt_record_error e = record { class = ErrorClass.ledger; code = Code.corrupt_record }

-- `if stored is None: _fail("DATABASE_ERROR")`
abbrev pub require_stored : Option AuthorizationRecord → Result AuthorizationRecord
require_stored none = fail ErrorClass.ledger Code.database_error
require_stored (some r) = ok r

abbrev pub both_free : Option AuthorizationRecord → Option AuthorizationRecord → Bool
both_free none none = true
both_free _ _ = false

-- The checks of `transition` on the record that it found.
unfoldable pub check_final :
    Option AuthorizationRecord → LedgerState → ℕ → Result AuthorizationRecord
check_final none target at = fail ErrorClass.ledger Code.authorization_not_found
check_final (some current) target at = do
  reject (not (is_claimed current.state)) Code.authorization_already_finalized
  reject (not (allowed_final current.phase target)) Code.authorization_transition_not_allowed
  reject (ltb at current.updated_at_utc.instant) Code.timestamp_before_current
  ok current

module _ (rt : Runtime) where
  -- `_required_text`
  abbrev pub ledger_text : String → Code → Result String
  ledger_text value c = plain_text rt ErrorClass.ledger value c

  unfoldable pub body_fingerprint : String → Result String
  body_fingerprint value = do
    fingerprint ← ledger_text value Code.invalid_body_fingerprint
    reject (not (is_body_fingerprint fingerprint)) Code.invalid_body_fingerprint
    ok fingerprint

  -- `KeeperHubAuthorizationRecord(...)`: the checks of `__post_init__`
  unfoldable pub make_authorization : AuthorizationRecord → Result AuthorizationRecord
  make_authorization r = do
    reference ← ledger_text r.approval_reference Code.invalid_approval_reference
    sheet ← ledger_text r.action_sheet_id Code.invalid_action_sheet_id
    attempt ← ledger_text r.attempt_id Code.invalid_attempt_id
    request ← ledger_text r.request_fingerprint Code.invalid_request_fingerprint
    body ← body_fingerprint r.body_fingerprint
    claimed_at ← serialize r.claimed_at_utc
    updated_at ← serialize r.updated_at_utc
    reject (ltb updated_at claimed_at) Code.reversed_timestamp
    reject (is_claimed r.state && not (nat_eq updated_at claimed_at)) Code.invalid_claim_timestamp
    ok r

  -- `_decode`
  abbrev pub decode : Option LedgerRow → Result (Option AuthorizationRecord)
  decode none = ok none
  decode (some row) = do
    r ← map_err corrupt_record_error (
        make_authorization (record {
          approval_reference = row.approval_reference;
          phase = row.phase;
          action_sheet_id = row.action_sheet_id;
          attempt_id = row.attempt_id;
          request_fingerprint = row.request_fingerprint;
          body_fingerprint = row.body_fingerprint;
          state = row.state;
          claimed_at_utc = utc row.claimed_at;
          updated_at_utc = utc row.updated_at;
        }))
    ok (some r)

  unfoldable pub load : String → List LedgerRow → Result (Option AuthorizationRecord)
  load ref t = decode (find (λ (row : LedgerRow). row.approval_reference == ref) t)

  unfoldable pub load_for_attempt :
      Phase → String → List LedgerRow → Result (Option AuthorizationRecord)
  load_for_attempt phase id t =
      decode (find (λ (row : LedgerRow). same_phase row.phase phase && row.attempt_id == id) t)

  -- The work of the transaction of `claim`.
  unfoldable pub claim_operation :
      AuthorizationRecord → List LedgerRow → Result (AuthorizationRecord × List LedgerRow)
  claim_operation r t = do
    by_reference ← load r.approval_reference t
    by_attempt ← load_for_attempt r.phase r.attempt_id t
    reject (not (both_free by_reference by_attempt)) Code.authorization_already_consumed
    claimed_at ← serialize r.claimed_at_utc
    updated_at ← serialize r.updated_at_utc
    let row : LedgerRow = record {
      approval_reference = r.approval_reference;
      phase = r.phase;
      action_sheet_id = r.action_sheet_id;
      attempt_id = r.attempt_id;
      request_fingerprint = r.request_fingerprint;
      body_fingerprint = r.body_fingerprint;
      state = r.state;
      claimed_at = claimed_at;
      updated_at = updated_at;
    }
    found ← load r.approval_reference (row ∷ t)
    stored ← require_stored found
    ok (stored, row ∷ t)

  unfoldable pub claim : AuthorizationRecord → LedgerDb → Result AuthorizationRecord × LedgerDb
  claim r db =
      if is_claimed r.state
      then write ErrorClass.ledger unchanged (claim_operation r) db
      else (fail ErrorClass.ledger Code.claim_state_required, db)

  unfoldable pub transition_operation :
      String → LedgerState → ℕ → List LedgerRow → Result (AuthorizationRecord × List LedgerRow)
  transition_operation ref target at t = do
    found ← load ref t
    current ← check_final found target at
    reject (not (nat_eq (open_rows ref t) 1)) Code.authorization_already_finalized
    again ← load ref (finalise_rows ref target at t)
    stored ← require_stored again
    ok (stored, finalise_rows ref target at t)

  -- `transition` after its checks of the arguments
  abbrev pub transition_checked :
      LedgerState → Result (String × ℕ) → LedgerDb → Result AuthorizationRecord × LedgerDb
  transition_checked target (err e) db = (err e, db)
  transition_checked target (ok (ref, at)) db =
      write ErrorClass.ledger unchanged (transition_operation ref target at) db

  unfoldable pub transition :
      String → LedgerState → Datetime → LedgerDb → Result AuthorizationRecord × LedgerDb
  transition ref target at db =
      transition_checked target
        (do
          reference ← ledger_text ref Code.invalid_approval_reference
          timestamp ← serialize at
          ok (reference, timestamp))
        db

  abbrev pub read_checked :
      (String → List LedgerRow → Result (Option AuthorizationRecord))
      → Result String
      → LedgerDb
      → Result (Option AuthorizationRecord) × LedgerDb
  read_checked look (err e) db = (err e, db)
  read_checked look (ok key) db = read ErrorClass.ledger (look key) db

  unfoldable pub get : String → LedgerDb → Result (Option AuthorizationRecord) × LedgerDb
  get ref db = read_checked load (ledger_text ref Code.invalid_approval_reference) db

  unfoldable pub get_for_attempt :
      Phase → String → LedgerDb → Result (Option AuthorizationRecord) × LedgerDb
  get_for_attempt phase id db =
      read_checked (load_for_attempt phase) (ledger_text id Code.invalid_attempt_id) db
