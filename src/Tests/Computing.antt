-- ===== src/Tests/Computing.antt =====
-- What the runs of the tests compute through.
use nexus_vector_keeperhub.Prelude.Ids.{full_match, is_hex}
use nexus_vector_keeperhub.Prelude.Sorting.{insert_by, sort_by}
use nexus_vector_keeperhub.Clock.{require_utc, later}
use nexus_vector_keeperhub.Mission.Text.{is_hex_digit, match_address, is_address, lower_char, lower}
use nexus_vector_keeperhub.Mission.Identity.{
  normalize_address, require_integer, required_string, normalize_effects, normalize_document,
  prefixed_sha256, derive_effect_id, derive_effect_ids, build_mission_identity,
}
use nexus_vector_keeperhub.Mission.Models.{
  wrap_identity_error, normalize_token, require_timestamp_order, request_for, effect_id_of,
  normalize_required_string, make_asset, make_effect_request, build_identity, make_request,
  make_effect_requests, from_mapping, make_effect_record, economics_agree, check_record_effect,
  check_record_effects, make_mission_record, effect_id_for,
}
use nexus_vector_keeperhub.Mission.Initial.{initial_effects, create_initial_mission_record}
use nexus_vector_keeperhub.Mission.Transitions.{
  require_not_earlier, transition_mission, transition_effect, transition_mission_effect,
}
use nexus_vector_keeperhub.Attempt.{is_mission_key}
use nexus_vector_keeperhub.Persistence.Database.{read, write}
use nexus_vector_keeperhub.Persistence.MissionTables.{
  translate, corrupt, same_request, insert_effect, insert_effects, update_missions,
  matching_missions, update_effect_rows, matching_effects, update_effects, initialize,
}
use nexus_vector_keeperhub.Persistence.MissionStore.{
  parse_request, decode_effects, reconstruct, load, insert_new, create_operation, create, get,
  rewrite, apply_operation, move_mission, move_effect,
}
use nexus_vector_keeperhub.Admission.{admission_loop, confirm_admission, admit}

-- A run over Missions and their store.
unfoldable pub mission_runs : Unit {0}
unfolding is_hex_digit match_address is_address lower_char lower normalize_address require_integer
    required_string normalize_effects normalize_document prefixed_sha256 derive_effect_id
    derive_effect_ids build_mission_identity wrap_identity_error normalize_token
    require_timestamp_order request_for effect_id_of normalize_required_string make_asset
    make_effect_request build_identity make_request make_effect_requests from_mapping
    make_effect_record economics_agree check_record_effect check_record_effects make_mission_record
    effect_id_for initial_effects create_initial_mission_record require_not_earlier
    transition_mission transition_effect transition_mission_effect is_mission_key full_match is_hex
    insert_by sort_by require_utc later read write translate corrupt same_request insert_effect
    insert_effects update_missions matching_missions update_effect_rows matching_effects
    update_effects initialize parse_request decode_effects reconstruct load insert_new
    create_operation create get rewrite apply_operation move_mission move_effect admission_loop
    confirm_admission admit
mission_runs = tt
