-- ===== src/Tests/Fixtures.antt =====
-- The concrete inputs of the tests.
use nexus_vector_keeperhub.Prelude.{ℕ, suc, String, some, List, [], ◌∷◌, ◌==◌, if◌then◌else◌}
use nexus_vector_keeperhub.Clock.{utc, require_utc}
use nexus_vector_keeperhub.Runtime.{Runtime}
use nexus_vector_keeperhub.Mission.States.{MissionState, EffectState}
use nexus_vector_keeperhub.Mission.Records.{
  MissionRequest, EffectRecord, MissionRecord, StoredMission,
}
use nexus_vector_keeperhub.Prelude.Ids.{full_match, is_hex}
use nexus_vector_keeperhub.Attempt.{
  AttemptPlan, AttemptRecord, create_initial_execution_attempt, make_plan, make_record,
  required_string, transition_execution_attempt, derive_attempt_id, is_mission_key, is_effect_id,
  is_attempt_id, is_request_fingerprint,
}
use nexus_vector_keeperhub.Persistence.Database.{read, write}
use nexus_vector_keeperhub.Persistence.AttemptStore.{
  initialize, create, create_operation, load, row_of, row_of_effect, insert_new, decode, corrupt,
  translate, same_plan, transition, transition_operation, rewrite, update_rows, matching_rows,
}
use nexus_vector_keeperhub.Dispatch.Workers.{advance}
use nexus_vector_keeperhub.Attempt.States.{AttemptState}
use nexus_vector_keeperhub.Dispatch.{
  World, PortOutcome, PortReply, Port, dispatch, prepare, claim, claim_error,
  mark_unknown_best_effort, outcome_unknown, settle, call_port, check_mission, check_effect,
}

-- 64 hexadecimal digits
abbrev pub hex_a : String
hex_a = "aaaaaaaaaaaaaaaaaaaaaaaaaaaaaaaaaaaaaaaaaaaaaaaaaaaaaaaaaaaaaaaa"

abbrev pub hex_b : String
hex_b = "bbbbbbbbbbbbbbbbbbbbbbbbbbbbbbbbbbbbbbbbbbbbbbbbbbbbbbbbbbbbbbbb"

abbrev pub mission_a : String
mission_a = "msn_aaaaaaaaaaaaaaaaaaaaaaaaaaaaaaaaaaaaaaaaaaaaaaaaaaaaaaaaaaaaaaaa"

abbrev pub effect_a : String
effect_a = "eff_aaaaaaaaaaaaaaaaaaaaaaaaaaaaaaaaaaaaaaaaaaaaaaaaaaaaaaaaaaaaaaaa"

abbrev pub effect_b : String
effect_b = "eff_bbbbbbbbbbbbbbbbbbbbbbbbbbbbbbbbbbbbbbbbbbbbbbbbbbbbbbbbbbbbbbbb"

abbrev pub attempt_a : String
attempt_a = "att_aaaaaaaaaaaaaaaaaaaaaaaaaaaaaaaaaaaaaaaaaaaaaaaaaaaaaaaaaaaaaaaa"

-- A digest that tells two effects apart.
abbrev pub toy_sha256 : String → String
toy_sha256 m =
    if m
      == "nexus-vector:execution-attempt:v1\0eff_bbbbbbbbbbbbbbbbbbbbbbbbbbbbbbbbbbbbbbbbbbbbbbbbbbbbbbbbbbbbbbbb"
    then hex_b
    else hex_a

abbrev pub toy : Runtime
toy = record {
  sha256 = toy_sha256;
  nfc = λ s. s;
  strip = λ s. s;
  positive_decimal = λ s. some s;
  dumps = λ j. "json";
}

abbrev pub plan_a : AttemptPlan
plan_a = record {
  mission_key = mission_a;
  effect_id = effect_a;
  provider_namespace = "keeperhub";
  request_key = "key-a";
  request_fingerprint = "xrf_aaaaaaaaaaaaaaaaaaaaaaaaaaaaaaaaaaaaaaaaaaaaaaaaaaaaaaaaaaaaaaaa";
}

abbrev pub prepared_a : AttemptRecord
prepared_a = record {
  attempt_id = attempt_a;
  plan = plan_a;
  state = AttemptState.prepared;
  created_at_utc = utc 5;
  updated_at_utc = utc 5;
}

abbrev pub token : String
token = "0xaaaaaaaaaaaaaaaaaaaaaaaaaaaaaaaaaaaaaaaa"

abbrev pub anna : String
anna = "0xbbbbbbbbbbbbbbbbbbbbbbbbbbbbbbbbbbbbbbbb"

abbrev pub effect_of : String → String → ℕ → EffectState → EffectRecord
effect_of ref id amount st = record {
  mission_key = mission_a;
  effect_ref = ref;
  effect_id = id;
  chain_id = 84532;
  token_address = token;
  token_decimals = 6;
  recipient = anna;
  amount_base_units = amount;
  state = st;
  created_at_utc = utc 1;
  updated_at_utc = utc 2;
}

abbrev pub request_a : MissionRequest
request_a = record {
  schema_version = "nexus-vector.mission-identity.v1";
  mission_namespace = "demo";
  mission_ref = "payout-1";
  mission_type = "payout";
  chain_id = 84532;
  asset = record { token_address = token; decimals = 6 };
  effects = record { effect_ref = "anna"; recipient = anna; amount_base_units = 12 } ∷ [];
}

abbrev pub mission_of : MissionState → List EffectRecord → MissionRecord
mission_of st effects = record {
  schema_version = "nexus-vector.mission-identity.v1";
  mission_key = mission_a;
  content_fingerprint = "mfp_aaaaaaaaaaaaaaaaaaaaaaaaaaaaaaaaaaaaaaaaaaaaaaaaaaaaaaaaaaaaaaaa";
  request = request_a;
  state = st;
  effects = effects;
  created_at_utc = utc 1;
  updated_at_utc = utc 2;
}

abbrev pub ready_mission : StoredMission
ready_mission = record {
  entry =
      mission_of MissionState.ready_for_execution
        (effect_of "anna" effect_a 12 EffectState.planned ∷ []);
  revision = 5;
}

-- A world before any dispatch; the port's own state is how often it was called.
abbrev pub world_0 : World ℕ
world_0 = record { attempts = record { tables = []; faults = [] }; provider = 0; calls = [] }

abbrev pub accepting : Port ℕ
accepting x n = (PortReply.replied PortOutcome.accepted, suc n)

abbrev pub failing : Port ℕ
failing x n = (PortReply.raised, suc n)

-- What a run of a dispatch computes through.
unfoldable pub executable : Unit {0}
unfolding dispatch prepare claim claim_error mark_unknown_best_effort outcome_unknown settle
    call_port check_mission check_effect initialize write read create create_operation load row_of
    row_of_effect insert_new decode corrupt translate same_plan transition transition_operation
    rewrite update_rows matching_rows create_initial_execution_attempt make_plan make_record
    required_string transition_execution_attempt derive_attempt_id is_mission_key is_effect_id
    is_attempt_id is_request_fingerprint full_match is_hex require_utc advance
executable = tt
