-- ===== src/Mission/Records.antt =====
-- The frozen dataclasses of src/nexus_vector/domain/mission_models.py and mission_identity.py.
-- A field that the program checks to be an integer of at least 0 or 1 is a natural number.
use nexus_vector_keeperhub.Prelude.{ℕ, String, List}
use nexus_vector_keeperhub.Clock.{Datetime}
use nexus_vector_keeperhub.Mission.States.{MissionState, EffectState}

pub record MissionIdentity : Type 0 where
  pub schema_version : String
  pub mission_key : String
  pub content_fingerprint : String
  pub effect_ids : List String

pub record AssetSpec : Type 0 where
  pub token_address : String
  pub decimals : ℕ

pub record EffectRequest : Type 0 where
  pub effect_ref : String
  pub recipient : String
  pub amount_base_units : ℕ

pub record MissionRequest : Type 0 where
  pub schema_version : String
  pub mission_namespace : String
  pub mission_ref : String
  pub mission_type : String
  pub chain_id : ℕ
  pub asset : AssetSpec
  pub effects : List EffectRequest

pub record EffectRecord : Type 0 where
  pub mission_key : String
  pub effect_ref : String
  pub effect_id : String
  pub chain_id : ℕ
  pub token_address : String
  pub token_decimals : ℕ
  pub recipient : String
  pub amount_base_units : ℕ
  pub state : EffectState
  pub created_at_utc : Datetime
  pub updated_at_utc : Datetime

pub record MissionRecord : Type 0 where
  pub schema_version : String
  pub mission_key : String
  pub content_fingerprint : String
  pub request : MissionRequest
  pub state : MissionState
  pub effects : List EffectRecord
  pub created_at_utc : Datetime
  pub updated_at_utc : Datetime

-- `StoredMission` of src/nexus_vector/persistence/sqlite_mission_store.py
pub record StoredMission : Type 0 where
  pub entry : MissionRecord
  pub revision : ℕ
