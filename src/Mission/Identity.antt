-- ===== src/Mission/Identity.antt =====
-- src/nexus_vector/domain/mission_identity.py: the business identity of a Mission. A document is
-- the one that `MissionRequest.to_identity_document` builds, so the guards on its shape, on the
-- names of its fields and on their Python types hold.
use Prim.Native.String.{◌++◌ as str_append}
use nexus_vector_keeperhub.Prelude.{
  ℕ, String, Bool, true, false, not, Option, none, some, List, [], ◌∷◌, ◌==◌, ltb, any,
  if◌then◌else◌,
}
use nexus_vector_keeperhub.Prelude.Sorting.{sort_by}
use nexus_vector_keeperhub.Errors.{ErrorClass, Code, Result, ok, ◌>>=◌, ◌>>◌, reject_if}
use nexus_vector_keeperhub.Runtime.{
  Runtime, Json, Items, text, number, array, object, end, item, close, member,
}
use nexus_vector_keeperhub.Mission.Text.{is_address, lower}
use nexus_vector_keeperhub.Mission.Records.{MissionIdentity, EffectRequest, MissionRequest}
use nexus_vector_keeperhub.Attempt.{is_mission_key}

abbrev pub schema_version_v1 : String
schema_version_v1 = "nexus-vector.mission-identity.v1"

pub data Comparison : Type 0 where
  new_mission same_mission mission_conflict different_mission : Comparison

abbrev reject : Bool → Code → Result (Unit {0})
reject bad c = reject_if bad ErrorClass.identity c

-- `x in seen`
abbrev pub contains : String → List String → Bool
contains x seen = any (λ y. y == x) seen

abbrev pub is_empty {ℓ} : {A : Type ℓ} → List A → Bool
is_empty [] = true
is_empty (x ∷ xs) = false

unfoldable pub normalize_address : String → Result String
normalize_address s = do reject (not (is_address s)) Code.invalid_address; ok (lower s)

unfoldable pub require_integer : ℕ → Code → ℕ → Result ℕ
require_integer value c minimum = do reject (ltb value minimum) c; ok value

module _ (rt : Runtime) where
  unfoldable pub required_string : String → Result String
  required_string value = do reject (rt.nfc value == "") Code.empty_string; ok (rt.nfc value)

  unfoldable pub normalize_effects : List String → List EffectRequest → Result (List EffectRequest)
  unfolding required_string normalize_address require_integer
  normalize_effects seen [] = ok []
  normalize_effects seen (effect ∷ effects) = do
    effect_ref ← required_string effect.effect_ref
    reject (contains effect_ref seen) Code.duplicate_effect_ref
    recipient ← normalize_address effect.recipient
    amount ← require_integer effect.amount_base_units Code.invalid_amount_base_units 1
    rest ← normalize_effects (effect_ref ∷ seen) effects
    ok (
        record { effect_ref = effect_ref; recipient = recipient; amount_base_units = amount }
        ∷ rest)

  unfoldable pub normalize_document : MissionRequest → Result MissionRequest
  unfolding required_string normalize_address require_integer
  normalize_document document = do
    reject (not (document.schema_version == schema_version_v1)) Code.unsupported_schema_version
    reject (is_empty document.effects) Code.empty_effects
    effects ← normalize_effects [] document.effects
    namespace ← required_string document.mission_namespace
    ref ← required_string document.mission_ref
    type ← required_string document.mission_type
    chain_id ← require_integer document.chain_id Code.invalid_chain_id 1
    token_address ← normalize_address document.asset.token_address
    decimals ← require_integer document.asset.decimals Code.invalid_decimals 0
    ok (record {
      schema_version = document.schema_version;
      mission_namespace = namespace;
      mission_ref = ref;
      mission_type = type;
      chain_id = chain_id;
      asset = record { token_address = token_address; decimals = decimals };
      effects = sort_by (λ (e : EffectRequest). e.effect_ref) effects;
    })

  -- `_prefixed_sha256`
  unfoldable pub prefixed_sha256 : String → String → String → String
  prefixed_sha256 prefix domain material =
      str_append prefix (rt.sha256 (str_append domain material))

  abbrev effect_id_material : String → String → String → Json
  effect_id_material version key ref = object (
      member "effect_ref" (text ref)
        (member "mission_key" (text key) (member "schema_version" (text version) close)))

  unfoldable pub derive_effect_id : String → String → String → Result String
  unfolding required_string prefixed_sha256
  derive_effect_id mission_key effect_ref version = do
    reject (not (version == schema_version_v1)) Code.unsupported_schema_version
    reject (not (is_mission_key mission_key)) Code.invalid_mission_key
    ref ← required_string effect_ref
    ok (
        prefixed_sha256 "eff_" "nexus-vector:mission-effect:v1\0"
          (rt.dumps (effect_id_material version mission_key ref)))

  abbrev mission_key_material : MissionRequest → Json
  mission_key_material d = object (
      member "mission_namespace" (text d.mission_namespace) (
        member "mission_ref" (text d.mission_ref) (
          member "mission_type" (text d.mission_type)
            (member "schema_version" (text d.schema_version) close))))

  abbrev effect_items : List EffectRequest → Items
  effect_items [] = end
  effect_items (e ∷ es) =
      item
        (object (
          member "amount_base_units" (number e.amount_base_units) (
            member "effect_ref" (text e.effect_ref) (member "recipient" (text e.recipient) close))))
        (effect_items es)

  abbrev content_material : MissionRequest → Json
  content_material d = object (
      member "asset"
        (object (
          member "decimals" (number d.asset.decimals)
            (member "token_address" (text d.asset.token_address) close)))
        (member "chain_id" (number d.chain_id) (
          member "effects" (array (effect_items d.effects)) (
            member "mission_namespace" (text d.mission_namespace) (
              member "mission_ref" (text d.mission_ref) (
                member "mission_type" (text d.mission_type)
                  (member "schema_version" (text d.schema_version) close)))))))

  unfoldable pub derive_effect_ids : String → String → List EffectRequest → Result (List String)
  derive_effect_ids key version [] = ok []
  derive_effect_ids key version (e ∷ es) = do
    id ← derive_effect_id key e.effect_ref version
    rest ← derive_effect_ids key version es
    ok (id ∷ rest)

  unfoldable pub build_mission_identity : MissionRequest → Result MissionIdentity
  unfolding prefixed_sha256
  build_mission_identity document = do
    normalized ← normalize_document document
    let mission_key =
        prefixed_sha256 "msn_" "nexus-vector:mission-key:v1\0"
          (rt.dumps (mission_key_material normalized))
    let content_fingerprint =
        prefixed_sha256 "mfp_" "nexus-vector:mission-content:v1\0"
          (rt.dumps (content_material normalized))
    effect_ids ← derive_effect_ids mission_key document.schema_version normalized.effects
    ok (record {
      schema_version = document.schema_version;
      mission_key = mission_key;
      content_fingerprint = content_fingerprint;
      effect_ids = effect_ids;
    })

unfoldable pub classify_mission : Option MissionIdentity → MissionIdentity → Comparison
classify_mission none candidate = new_mission
classify_mission (some existing) candidate =
    if not (existing.mission_key == candidate.mission_key)
    then different_mission
    else if existing.content_fingerprint == candidate.content_fingerprint
    then same_mission
    else mission_conflict
