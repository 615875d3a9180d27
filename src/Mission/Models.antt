-- ===== src/Mission/Models.antt =====
-- src/nexus_vector/domain/mission_models.py: the constructors of the Mission records, each of
-- which is the `__post_init__` of its class. Fields have the types that the classes annotate, so
-- `isinstance` guards on them hold; every other guard is here, in its order.
use nexus_vector_keeperhub.Prelude.{
  String, Bool, false, not, ◌&&◌, ◌||◌, Option, none, some, List, [], ◌∷◌, ◌==◌, ltb, nat_eq, all,
  map, if◌then◌else◌,
}
use nexus_vector_keeperhub.Prelude.Sorting.{sort_by}
use nexus_vector_keeperhub.Errors.{
  Error, ErrorClass, Code, Result, ok, fail, ◌>>=◌, ◌>>◌, reject_if, map_err,
}
use nexus_vector_keeperhub.Clock.{Datetime, require_utc}
use nexus_vector_keeperhub.Runtime.{Runtime}
use nexus_vector_keeperhub.Mission.Text.{is_address, lower}
use nexus_vector_keeperhub.Mission.Records.{
  MissionIdentity, AssetSpec, EffectRequest, MissionRequest, EffectRecord, MissionRecord,
}
use nexus_vector_keeperhub.Mission.Identity.{
  schema_version_v1, contains, is_empty, build_mission_identity, derive_effect_id,
}

abbrev reject : Bool → Code → Result (Unit {0})
reject bad c = reject_if bad ErrorClass.mission_model c

-- `_wrap_identity_error`, where a call of the identity module raises
unfoldable pub wrap_identity_error : (Code → Code) → Error → Error
wrap_identity_error prefix e = elim e.class [
  | ErrorClass.identity ↦ record { class = ErrorClass.mission_model; code = prefix e.code }
  | _ ↦ e
]

unfoldable pub normalize_token : String → Code → Result String
normalize_token s c = do reject (not (is_address s)) c; ok (lower s)

unfoldable pub require_timestamp_order : Datetime → Datetime → Result (Unit {0})
require_timestamp_order created updated = do
  c ← require_utc ErrorClass.mission_model created
  u ← require_utc ErrorClass.mission_model updated
  reject (ltb updated.instant created.instant) Code.reversed_timestamp

-- `{effect.effect_ref: effect for effect in effects}[ref]`: of two equal keys the last is kept.
unfoldable pub request_for : String → List EffectRequest → Option EffectRequest
request_for ref [] = none
request_for ref (e ∷ es) = elim (request_for ref es) [
  | some found ↦ some found
  | none ↦ if e.effect_ref == ref then some e else none
]

-- `{effect.effect_ref: effect.effect_id for effect in effects}[ref]`
unfoldable pub effect_id_of : String → List EffectRecord → Option String
effect_id_of ref [] = none
effect_id_of ref (e ∷ es) = elim (effect_id_of ref es) [
  | some found ↦ some found
  | none ↦ if e.effect_ref == ref then some e.effect_id else none
]

-- `len(xs) != len(frozenset(xs))`
abbrev has_duplicates : List String → Bool
has_duplicates [] = false
has_duplicates (x ∷ xs) = contains x xs || has_duplicates xs

-- `not (xs - ys)` of two sets
abbrev pub is_subset : List String → List String → Bool
is_subset xs ys = all (λ x. contains x ys) xs

-- The keys of a dict that is built from a list.
abbrev pub distinct : List String → List String
distinct [] = []
distinct (x ∷ xs) = let rest = distinct xs in if contains x xs then rest else x ∷ rest

abbrev pub request_refs : List EffectRequest → List String
request_refs = map (λ (e : EffectRequest). e.effect_ref)

abbrev record_refs : List EffectRecord → List String
record_refs = map (λ (e : EffectRecord). e.effect_ref)

module _ (rt : Runtime) where
  unfoldable pub normalize_required_string : String → Code → Result String
  normalize_required_string value c = do
    reject (value == "") c
    reject (rt.nfc value == "") c
    ok (rt.nfc value)

  unfoldable pub make_asset : AssetSpec → Result AssetSpec
  unfolding normalize_token
  make_asset a = do
    token ← normalize_token a.token_address Code.invalid_token_address
    reject (ltb a.decimals 0) Code.invalid_token_decimals
    ok (record a { token_address = token })

  unfoldable pub make_effect_request : EffectRequest → Result EffectRequest
  unfolding normalize_required_string normalize_token
  make_effect_request e = do
    ref ← normalize_required_string e.effect_ref Code.invalid_effect_ref
    recipient ← normalize_token e.recipient Code.invalid_recipient
    reject (ltb e.amount_base_units 1) Code.invalid_amount_base_units
    ok (record e { effect_ref = ref; recipient = recipient })

  -- `MissionRequest.build_identity`
  unfoldable pub build_identity : MissionRequest → Result MissionIdentity
  build_identity r = map_err (wrap_identity_error Code.request_) (build_mission_identity rt r)

  unfoldable pub make_request : MissionRequest → Result MissionRequest
  make_request r = do
    reject (is_empty r.effects) Code.empty_effects
    namespace ← normalize_required_string r.mission_namespace Code.invalid_mission_namespace
    ref ← normalize_required_string r.mission_ref Code.invalid_mission_ref
    type ← normalize_required_string r.mission_type Code.invalid_mission_type
    reject (ltb r.chain_id 1) Code.invalid_chain_id
    let normalized = record r {
      mission_namespace = namespace;
      mission_ref = ref;
      mission_type = type;
    }
    identity ← build_identity normalized
    ok normalized

  unfoldable pub make_effect_requests : List EffectRequest → Result (List EffectRequest)
  make_effect_requests [] = ok []
  make_effect_requests (e ∷ es) = do
    effect ← make_effect_request e
    rest ← make_effect_requests es
    ok (effect ∷ rest)

  -- `MissionRequest.from_mapping` on a mapping with exactly the required fields.
  unfoldable pub from_mapping : MissionRequest → Result MissionRequest
  from_mapping value = do
    effects ← make_effect_requests value.effects
    asset ← make_asset value.asset
    make_request (record value { asset = asset; effects = effects })

  unfoldable pub make_effect_record : EffectRecord → Result EffectRecord
  make_effect_record e = do
    ref ← normalize_required_string e.effect_ref Code.invalid_effect_ref
    token ← normalize_token e.token_address Code.invalid_token_address
    recipient ← normalize_token e.recipient Code.invalid_recipient
    reject (ltb e.chain_id 1) Code.invalid_chain_id
    reject (ltb e.token_decimals 0) Code.invalid_token_decimals
    reject (ltb e.amount_base_units 1) Code.invalid_amount_base_units
    require_timestamp_order e.created_at_utc e.updated_at_utc
    expected ←
        map_err (wrap_identity_error Code.effect_)
          (derive_effect_id rt e.mission_key ref schema_version_v1)
    reject (not (e.effect_id == expected)) Code.effect_id_mismatch
    ok (record e { effect_ref = ref; token_address = token; recipient = recipient })

  -- `effect.chain_id != ... or ... or effect.amount_base_units != ...`, of the request's effect
  unfoldable pub economics_agree : MissionRequest → EffectRecord → EffectRequest → Bool
  economics_agree request e wanted =
      nat_eq e.chain_id request.chain_id
      && e.token_address == request.asset.token_address
      && nat_eq e.token_decimals request.asset.decimals
      && e.recipient == wanted.recipient
      && nat_eq e.amount_base_units wanted.amount_base_units

  -- A missing key cannot occur: the sets of references have been compared before.
  abbrev check_economics : MissionRequest → EffectRecord → Option EffectRequest → Result (Unit {0})
  check_economics request e none = fail ErrorClass.foreign Code.unexpected
  check_economics request e (some wanted) =
      reject (not (economics_agree request e wanted)) Code.effect_economic_mismatch

  unfoldable pub check_record_effect :
      MissionRecord → List String → EffectRecord → Result (Unit {0})
  check_record_effect r ids e = do
    reject (not (e.mission_key == r.mission_key)) Code.effect_mission_key_mismatch
    reject (ltb e.created_at_utc.instant r.created_at_utc.instant)
        Code.effect_created_before_mission
    reject (ltb r.updated_at_utc.instant e.updated_at_utc.instant) Code.effect_updated_after_mission
    expected ←
        map_err (wrap_identity_error Code.effect_)
          (derive_effect_id rt r.mission_key e.effect_ref r.schema_version)
    reject (not (e.effect_id == expected) || not (contains e.effect_id ids)) Code.effect_id_mismatch
    check_economics r.request e (request_for e.effect_ref r.request.effects)

  unfoldable pub check_record_effects :
      MissionRecord → List String → List EffectRecord → Result (Unit {0})
  check_record_effects r ids [] = ok tt
  check_record_effects r ids (e ∷ es) = do
    check_record_effect r ids e
    check_record_effects r ids es

  unfoldable pub make_mission_record : MissionRecord → Result MissionRecord
  make_mission_record r = do
    require_timestamp_order r.created_at_utc r.updated_at_utc
    identity ← build_identity r.request
    reject (not (r.schema_version == r.request.schema_version)) Code.schema_version_mismatch
    reject (not (r.schema_version == identity.schema_version)) Code.schema_version_mismatch
    reject (not (r.mission_key == identity.mission_key)) Code.mission_key_mismatch
    reject (not (r.content_fingerprint == identity.content_fingerprint))
        Code.content_fingerprint_mismatch
    let actual = record_refs r.effects
    let expected = request_refs r.request.effects
    reject (has_duplicates actual) Code.duplicate_effect_ref
    reject (not (is_subset expected actual)) Code.missing_effect_ref
    reject (not (is_subset actual expected)) Code.unexpected_effect_ref
    check_record_effects r identity.effect_ids r.effects
    ok r

  unfoldable pub effect_id_for : MissionRecord → String → Result String
  effect_id_for r effect_ref = do
    ref ← normalize_required_string effect_ref Code.unknown_effect_ref
    elim (effect_id_of ref (sort_by (λ (e : EffectRecord). e.effect_ref) r.effects)) [
      | none ↦ fail ErrorClass.mission_model Code.unknown_effect_ref
      | some id ↦ ok id
    ]
