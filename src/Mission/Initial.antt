-- ===== src/Mission/Initial.antt =====
-- src/nexus_vector/domain/mission_models.py: `create_initial_mission_record`.
use nexus_vector_keeperhub.Prelude.{String, not, ◌||◌, Option, none, some, List, [], ◌∷◌}
use nexus_vector_keeperhub.Prelude.Sorting.{sort_by}
use nexus_vector_keeperhub.Errors.{ErrorClass, Code, Result, ok, fail, ◌>>=◌, ◌>>◌, reject_if}
use nexus_vector_keeperhub.Clock.{Datetime, require_utc}
use nexus_vector_keeperhub.Runtime.{Runtime}
use nexus_vector_keeperhub.Mission.States.{MissionState, EffectState}
use nexus_vector_keeperhub.Mission.Records.{
  MissionIdentity, EffectRequest, MissionRequest, EffectRecord, MissionRecord,
}
use nexus_vector_keeperhub.Mission.Identity.{derive_effect_id}
use nexus_vector_keeperhub.Mission.Models.{
  request_for, request_refs, distinct, is_subset, build_identity, make_effect_record,
  make_mission_record,
}

module _ (rt : Runtime) where
  -- The effect identifiers by reference, in the order of the request.
  abbrev pub ids_by_ref : MissionIdentity → MissionRequest → List String → Result (List String)
  ids_by_ref identity request [] = ok []
  ids_by_ref identity request (ref ∷ refs) = do
    id ← derive_effect_id rt identity.mission_key ref request.schema_version
    rest ← ids_by_ref identity request refs
    ok (id ∷ rest)

  abbrev pub initial_effect :
      MissionIdentity
      → MissionRequest
      → Datetime
      → String
      → Option EffectRequest
      → Result EffectRecord
  initial_effect identity request at ref none = fail ErrorClass.foreign Code.unexpected
  initial_effect identity request at ref (some wanted) = do
    id ← derive_effect_id rt identity.mission_key ref request.schema_version
    make_effect_record rt (record {
      mission_key = identity.mission_key;
      effect_ref = ref;
      effect_id = id;
      chain_id = request.chain_id;
      token_address = request.asset.token_address;
      token_decimals = request.asset.decimals;
      recipient = wanted.recipient;
      amount_base_units = wanted.amount_base_units;
      state = EffectState.planned;
      created_at_utc = at;
      updated_at_utc = at;
    })

  unfoldable pub initial_effects :
      MissionIdentity → MissionRequest → Datetime → List String → Result (List EffectRecord)
  initial_effects identity request at [] = ok []
  initial_effects identity request at (ref ∷ refs) = do
    e ← initial_effect identity request at ref (request_for ref request.effects)
    rest ← initial_effects identity request at refs
    ok (e ∷ rest)

  unfoldable pub create_initial_mission_record : MissionRequest → Datetime → Result MissionRecord
  create_initial_mission_record request created_at_utc = do
    at ← require_utc ErrorClass.mission_model created_at_utc
    identity ← build_identity rt request
    let refs = distinct (request_refs request.effects)
    ids ← ids_by_ref identity request refs
    reject_if (not (is_subset ids identity.effect_ids) || not (is_subset identity.effect_ids ids))
        ErrorClass.mission_model Code.identity_effect_set_mismatch
    effects ← initial_effects identity request created_at_utc (sort_by (λ (ref : String). ref) refs)
    make_mission_record rt (record {
      schema_version = request.schema_version;
      mission_key = identity.mission_key;
      content_fingerprint = identity.content_fingerprint;
      request = request;
      state = MissionState.received;
      effects = effects;
      created_at_utc = created_at_utc;
      updated_at_utc = created_at_utc;
    })
