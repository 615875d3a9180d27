-- ===== src/Persistence/MissionTables.antt =====
-- src/nexus_vector/persistence/sqlite_mission_store.py: the tables `missions` and `effects`, and the
-- statements that the store runs on them. A timestamp column holds an instant in UTC; the column
-- `request_json` holds the document of a request, which canonical JSON keeps.
use nexus_vector_keeperhub.Prelude.{
  ℕ, ◌+◌, String, Bool, true, false, not, ◌&&◌, ◌||◌, Option, none, some, List, [], ◌∷◌, ◌==◌,
  nat_eq, any, if◌then◌else◌,
}
use nexus_vector_keeperhub.Errors.{
  Error, ErrorClass, Code, Result, ok, fail, ◌>>=◌, ◌>>◌, reject_if,
}
use nexus_vector_keeperhub.Clock.{Datetime, require_utc}
use nexus_vector_keeperhub.Mission.States.{MissionState, EffectState}
use nexus_vector_keeperhub.Mission.Records.{
  EffectRequest, MissionRequest, EffectRecord, StoredMission,
}
use nexus_vector_keeperhub.Persistence.Database.{Database, write}

pub record MissionRow : Type 0 where
  pub mission_key : String
  pub schema_version : String
  pub content_fingerprint : String
  pub request : MissionRequest
  pub state : MissionState
  pub created_at : ℕ
  pub updated_at : ℕ
  pub revision : ℕ

pub record EffectRow : Type 0 where
  pub effect_id : String
  pub mission_key : String
  pub effect_ref : String
  pub chain_id : ℕ
  pub token_address : String
  pub token_decimals : ℕ
  pub recipient : String
  pub amount_base_units : ℕ
  pub state : EffectState
  pub created_at : ℕ
  pub updated_at : ℕ

pub record MissionTables : Type 0 where
  pub missions : List MissionRow
  pub effects : List EffectRow

abbrev pub MissionDb : Type 0
MissionDb = Database MissionTables

abbrev pub fail_store {ℓ} : {A : Type ℓ} → Code → Result A
fail_store = fail ErrorClass.mission_store

abbrev pub reject : Bool → Code → Result (Unit {0})
reject bad c = reject_if bad ErrorClass.mission_store c

abbrev pub serialize : Datetime → Result ℕ
serialize t = do u ← require_utc ErrorClass.mission_store t; ok u.instant

-- `except MissionTransitionError as error: _fail(error.code)` in `_write`
unfoldable pub translate : Error → Error
translate e = elim e.class [
  | ErrorClass.mission_transition ↦ record { class = ErrorClass.mission_store; code = e.code }
  | _ ↦ e
]

-- The `except` clauses of `_reconstruct`: the store's own errors pass, all others are corruption.
unfoldable pub corrupt : Error → Error
corrupt e = elim e.class [
  | ErrorClass.mission_store ↦ e
  | _ ↦ record { class = ErrorClass.mission_store; code = Code.corrupt_record }
]

abbrev pub require_found : Code → Option StoredMission → Result StoredMission
require_found c none = fail_store c
require_found c (some s) = ok s

abbrev pub same_effects : List EffectRequest → List EffectRequest → Bool
same_effects [] [] = true
same_effects (e ∷ es) (f ∷ fs) =
    e.effect_ref == f.effect_ref
    && e.recipient == f.recipient
    && nat_eq e.amount_base_units f.amount_base_units
    && same_effects es fs
same_effects _ _ = false

-- `_serialize_request(request) == value`, of the document that `value` holds
unfoldable pub same_request : MissionRequest → MissionRequest → Bool
same_request r s =
    r.schema_version == s.schema_version
    && r.mission_namespace == s.mission_namespace
    && r.mission_ref == s.mission_ref
    && r.mission_type == s.mission_type
    && nat_eq r.chain_id s.chain_id
    && r.asset.token_address == s.asset.token_address
    && nat_eq r.asset.decimals s.asset.decimals
    && same_effects r.effects s.effects

-- `SELECT ... FROM effects WHERE mission_key = ?`
abbrev pub effects_of : String → List EffectRow → List EffectRow
effects_of key [] = []
effects_of key (row ∷ t) =
    let rest = effects_of key t in if row.mission_key == key then row ∷ rest else rest

-- `_insert_effect`: a row with this identifier, or with this reference in this Mission, raises.
unfoldable pub insert_effect : EffectRecord → List EffectRow → Result (List EffectRow)
insert_effect e t = do
  created ← serialize e.created_at_utc
  updated ← serialize e.updated_at_utc
  reject
      (any
        (λ (row : EffectRow).
          row.effect_id == e.effect_id
          || row.mission_key == e.mission_key && row.effect_ref == e.effect_ref)
        t)
      Code.database_error
  let row : EffectRow = record {
    effect_id = e.effect_id;
    mission_key = e.mission_key;
    effect_ref = e.effect_ref;
    chain_id = e.chain_id;
    token_address = e.token_address;
    token_decimals = e.token_decimals;
    recipient = e.recipient;
    amount_base_units = e.amount_base_units;
    state = e.state;
    created_at = created;
    updated_at = updated;
  }
  ok (row ∷ t)

unfoldable pub insert_effects : List EffectRecord → List EffectRow → Result (List EffectRow)
insert_effects [] t = ok t
insert_effects (e ∷ es) t = do t' ← insert_effect e t; insert_effects es t'

-- `UPDATE missions SET state, updated_at_utc, revision = revision + 1 WHERE key AND revision`
unfoldable pub update_missions : String → ℕ → MissionState → ℕ → List MissionRow → List MissionRow
update_missions key expected st at [] = []
update_missions key expected st at (row ∷ t) =
    (if row.mission_key == key && nat_eq row.revision expected
      then record row { state = st; updated_at = at; revision = row.revision + 1 }
      else row)
    ∷ update_missions key expected st at t

unfoldable pub matching_missions : String → ℕ → List MissionRow → ℕ
matching_missions key expected [] = 0
matching_missions key expected (row ∷ t) =
    (if row.mission_key == key && nat_eq row.revision expected then 1 else 0)
    + matching_missions key expected t

-- `UPDATE effects SET state, updated_at_utc WHERE effect_id AND mission_key`
unfoldable pub update_effect_rows :
    String → String → EffectState → ℕ → List EffectRow → List EffectRow
update_effect_rows key id st at [] = []
update_effect_rows key id st at (row ∷ t) =
    (if row.effect_id == id && row.mission_key == key
      then record row { state = st; updated_at = at }
      else row)
    ∷ update_effect_rows key id st at t

unfoldable pub matching_effects : String → String → List EffectRow → ℕ
matching_effects key id [] = 0
matching_effects key id (row ∷ t) =
    (if row.effect_id == id && row.mission_key == key then 1 else 0) + matching_effects key id t

unfoldable pub update_effects :
    String → List EffectRecord → List EffectRow → Result (List EffectRow)
update_effects key [] t = ok t
update_effects key (e ∷ es) t = do
  updated ← serialize e.updated_at_utc
  reject (not (nat_eq (matching_effects key e.effect_id t) 1)) Code.corrupt_record
  update_effects key es (update_effect_rows key e.effect_id e.state updated t)

-- `initialize` on a database that has the schema already: its transaction changes nothing.
unfoldable pub initialize : MissionDb → Result (Unit {0}) × MissionDb
initialize = write ErrorClass.mission_store translate (λ t. ok (tt, t))
