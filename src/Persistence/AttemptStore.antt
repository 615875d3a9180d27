-- ===== src/Persistence/AttemptStore.antt =====
-- src/nexus_vector/persistence/sqlite_execution_attempt_store.py: the journal with one execution
-- attempt for each effect. A row has the columns of the table `execution_attempts`. A timestamp
-- column holds the text of an instant in UTC to the microsecond, which writing and parsing keep; a
-- state column holds one of the state names. `attempt_id` is the primary key and `effect_id` is
-- unique: the code tests both before it inserts.
pub mod Rows
pub mod Moves
pub mod Creation
pub mod Raises
pub mod Progress
pub mod Recovery
use nexus_vector_keeperhub.Prelude.{
  ℕ, ◌+◌, String, Bool, not, ◌&&◌, Option, none, some, List, [], ◌∷◌, ◌==◌, ltb, nat_eq, find,
  if◌then◌else◌,
}
use nexus_vector_keeperhub.Errors.{
  Error, ErrorClass, Code, Result, ok, fail, ◌>>=◌, ◌>>◌, reject_if, map_err,
}
use nexus_vector_keeperhub.Clock.{Datetime, utc, require_utc}
use nexus_vector_keeperhub.Runtime.{Runtime}
use nexus_vector_keeperhub.Attempt.{
  AttemptPlan, AttemptRecord, make_plan, make_record, transition_execution_attempt,
}
use nexus_vector_keeperhub.Attempt.States.{AttemptState, same, is_recovery}
use nexus_vector_keeperhub.Persistence.Database.{Database, write, read}

pub record StoredAttempt : Type 0 where
  pub entry : AttemptRecord
  pub revision : ℕ

pub record AttemptRow : Type 0 where
  pub attempt_id : String
  pub plan : AttemptPlan
  pub state : AttemptState
  pub created_at : ℕ
  pub updated_at : ℕ
  pub revision : ℕ

abbrev pub AttemptTable : Type 0
AttemptTable = List AttemptRow

abbrev pub AttemptDb : Type 0
AttemptDb = Database AttemptTable

abbrev fail_store {ℓ} : {A : Type ℓ} → Code → Result A
fail_store = fail ErrorClass.attempt_store

abbrev reject : Bool → Code → Result (Unit {0})
reject bad c = reject_if bad ErrorClass.attempt_store c

-- `_serialize_timestamp`
abbrev serialize : Datetime → Result ℕ
serialize t = do u ← require_utc ErrorClass.attempt_store t; ok u.instant

-- `WHERE attempt_id = ?` and `WHERE effect_id = ?`
unfoldable pub row_of : String → AttemptTable → Option AttemptRow
row_of id = find (λ row. row.attempt_id == id)

unfoldable pub row_of_effect : String → AttemptTable → Option AttemptRow
row_of_effect id = find (λ row. row.plan.effect_id == id)

-- `except ExecutionAttemptError as error: _fail(error.code)` in `_write`
unfoldable pub translate : Error → Error
translate e = elim e.class [
  | ErrorClass.attempt ↦ record { class = ErrorClass.attempt_store; code = e.code }
  | _ ↦ e
]

-- The `except` clauses of `_load`: the store's own errors pass, all others are a corrupt record.
unfoldable pub corrupt : Error → Error
corrupt e = elim e.class [
  | ErrorClass.attempt_store ↦ e
  | _ ↦ record { class = ErrorClass.attempt_store; code = Code.corrupt_record }
]

-- `if stored is None: _fail(code)`
abbrev require_found : Code → Option StoredAttempt → Result StoredAttempt
require_found c none = fail_store c
require_found c (some s) = ok s

-- `existing.record.plan == record.plan`
unfoldable pub same_plan : AttemptPlan → AttemptPlan → Bool
same_plan p q =
    p.mission_key == q.mission_key
    && p.effect_id == q.effect_id
    && p.provider_namespace == q.provider_namespace
    && p.request_key == q.request_key
    && p.request_fingerprint == q.request_fingerprint

-- `UPDATE ... SET state, updated_at_utc, revision = revision + 1 WHERE attempt_id AND revision`
unfoldable pub update_rows : String → ℕ → AttemptState → ℕ → AttemptTable → AttemptTable
update_rows id expected st at [] = []
update_rows id expected st at (row ∷ t) =
    (if row.attempt_id == id && nat_eq row.revision expected
      then record row { state = st; updated_at = at; revision = row.revision + 1 }
      else row)
    ∷ update_rows id expected st at t

-- `updated.rowcount`
unfoldable pub matching_rows : String → ℕ → AttemptTable → ℕ
matching_rows id expected [] = 0
matching_rows id expected (row ∷ t) =
    (if row.attempt_id == id && nat_eq row.revision expected then 1 else 0)
    + matching_rows id expected t

-- `initialize` on a database that has the schema already: its transaction changes nothing.
unfoldable pub initialize : AttemptDb → Result (Unit {0}) × AttemptDb
initialize = write ErrorClass.attempt_store translate (λ t. ok (tt, t))

module _ (rt : Runtime) where
  -- The body of `_load` on the row that it found.
  unfoldable pub decode : AttemptRow → Result StoredAttempt
  decode row = map_err corrupt (do
    plan ← make_plan rt row.plan
    r ← make_record rt (record {
      attempt_id = row.attempt_id;
      plan = plan;
      state = row.state;
      created_at_utc = utc row.created_at;
      updated_at_utc = utc row.updated_at;
    })
    reject (ltb row.revision 1) Code.corrupt_record
    ok (record { entry = r; revision = row.revision }))

  abbrev decode_found : Option AttemptRow → Result (Option StoredAttempt)
  decode_found none = ok none
  decode_found (some row) = do s ← decode row; ok (some s)

  unfoldable pub load : String → AttemptTable → Result (Option StoredAttempt)
  load id t = decode_found (row_of id t)

  -- The insertion of `create`, where the attempt is not there yet.
  unfoldable pub insert_new : AttemptRecord → AttemptTable → Result (StoredAttempt × AttemptTable)
  insert_new r t = elim (row_of_effect r.plan.effect_id t) [
    | some _ ↦ fail_store Code.execution_attempt_conflict
    | none ↦ do
      created ← serialize r.created_at_utc
      updated ← serialize r.updated_at_utc
      let row : AttemptRow = record {
        attempt_id = r.attempt_id;
        plan = r.plan;
        state = r.state;
        created_at = created;
        updated_at = updated;
        revision = 1;
      }
      stored ← load r.attempt_id (row ∷ t)
      s ← require_found Code.database_error stored
      ok (s, row ∷ t)
  ]

  abbrev create_found :
      AttemptRecord → Option StoredAttempt → AttemptTable → Result (StoredAttempt × AttemptTable)
  create_found r (some existing) t =
      if same_plan existing.entry.plan r.plan
      then ok (existing, t)
      else fail_store Code.execution_attempt_conflict
  create_found r none t = insert_new r t

  unfoldable pub create_operation :
      AttemptRecord → AttemptTable → Result (StoredAttempt × AttemptTable)
  create_operation r t = do existing ← load r.attempt_id t; create_found r existing t

  unfoldable pub create : AttemptRecord → AttemptDb → Result StoredAttempt × AttemptDb
  create r db =
      if same r.state AttemptState.prepared
      then write ErrorClass.attempt_store translate (create_operation r) db
      else (fail_store Code.invalid_initial_attempt, db)

  unfoldable pub get : String → AttemptDb → Result (Option StoredAttempt) × AttemptDb
  get id = read ErrorClass.attempt_store (load id)

  -- The update of `transition`, and the row that it reads back.
  unfoldable pub rewrite :
      String → ℕ → AttemptRecord → AttemptTable → Result (StoredAttempt × AttemptTable)
  rewrite id expected transitioned t = do
    updated ← serialize transitioned.updated_at_utc
    reject (not (nat_eq (matching_rows id expected t) 1)) Code.stale_revision
    let t' = update_rows id expected transitioned.state updated t
    reread ← load id t'
    stored ← require_found Code.database_error reread
    reject (not (nat_eq stored.revision (expected + 1))) Code.database_error
    ok (stored, t')

  abbrev pub move_current :
      String
      → ℕ
      → AttemptState
      → Datetime
      → AttemptTable
      → StoredAttempt
      → Result (StoredAttempt × AttemptTable)
  move_current id expected target at t current = do
    reject (not (nat_eq current.revision expected)) Code.stale_revision
    transitioned ← transition_execution_attempt rt current.entry target at
    rewrite id expected transitioned t

  unfoldable pub transition_operation :
      String → ℕ → AttemptState → Datetime → AttemptTable → Result (StoredAttempt × AttemptTable)
  transition_operation id expected target at t = do
    found ← load id t
    current ← require_found Code.attempt_not_found found
    move_current id expected target at t current

  unfoldable pub transition :
      String → ℕ → AttemptState → Datetime → AttemptDb → Result StoredAttempt × AttemptDb
  transition id expected target at =
      write ErrorClass.attempt_store translate (transition_operation id expected target at)
