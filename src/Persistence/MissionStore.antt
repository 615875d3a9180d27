-- ===== src/Persistence/MissionStore.antt =====
-- src/nexus_vector/persistence/sqlite_mission_store.py: the operations on Mission aggregates.
pub mod Rows
pub mod Effects
pub mod Applied
pub mod Revisions
pub mod Exclusive
use nexus_vector_keeperhub.Prelude.{
  ℕ, ◌+◌, String, Bool, true, false, not, ◌&&◌, ◌||◌, Option, none, some, List, [], ◌∷◌, ◌==◌, ltb,
  nat_eq, find, any, if◌then◌else◌,
}
use nexus_vector_keeperhub.Prelude.Sorting.{sort_by}
use nexus_vector_keeperhub.Errors.{
  Error, ErrorClass, Code, Result, ok, fail, ◌>>=◌, ◌>>◌, reject_if, map_err,
}
use nexus_vector_keeperhub.Clock.{Datetime, utc, require_utc}
use nexus_vector_keeperhub.Runtime.{Runtime}
use nexus_vector_keeperhub.Mission.States.{
  MissionState, EffectState, same_mission_state, same_effect_state,
}
use nexus_vector_keeperhub.Mission.Records.{
  EffectRequest, MissionRequest, EffectRecord, MissionRecord, StoredMission,
}
use nexus_vector_keeperhub.Mission.Models.{from_mapping, make_effect_record, make_mission_record}
use nexus_vector_keeperhub.Mission.Transitions.{transition_mission, transition_mission_effect}
use nexus_vector_keeperhub.Persistence.Database.{Database, write, read}
use nexus_vector_keeperhub.Persistence.MissionTables.{
  MissionRow, EffectRow, MissionTables, MissionDb, fail_store, reject, serialize, translate,
  corrupt, require_found, same_effects, same_request, effects_of, insert_effect, insert_effects,
  update_missions, matching_missions, update_effect_rows, matching_effects, update_effects,
  initialize,
}

-- `_TERMINAL_MISSION_STATES`
abbrev is_terminal_mission : MissionState → Bool
is_terminal_mission MissionState.completed = true
is_terminal_mission MissionState.mission_conflict = true
is_terminal_mission MissionState.blocked = true
is_terminal_mission MissionState.manual_review_required = true
is_terminal_mission _ = false

-- `SELECT mission_key FROM missions WHERE state NOT IN (...)`
abbrev restart_rows : List MissionRow → List MissionRow
restart_rows [] = []
restart_rows (row ∷ t) =
    let rest = restart_rows t in if is_terminal_mission row.state then rest else row ∷ rest

module _ (rt : Runtime) where
  -- `_parse_request`
  unfoldable pub parse_request : MissionRequest → Result MissionRequest
  parse_request document = do
    request ← map_err corrupt (from_mapping rt document)
    reject (not (same_request request document)) Code.corrupt_record
    ok request

  unfoldable pub decode_effects : List EffectRow → Result (List EffectRecord)
  decode_effects [] = ok []
  decode_effects (row ∷ rows) = do
    e ← make_effect_record rt (record {
      mission_key = row.mission_key;
      effect_ref = row.effect_ref;
      effect_id = row.effect_id;
      chain_id = row.chain_id;
      token_address = row.token_address;
      token_decimals = row.token_decimals;
      recipient = row.recipient;
      amount_base_units = row.amount_base_units;
      state = row.state;
      created_at_utc = utc row.created_at;
      updated_at_utc = utc row.updated_at;
    })
    es ← decode_effects rows
    ok (e ∷ es)

  unfoldable pub reconstruct : MissionRow → List EffectRow → Result StoredMission
  reconstruct row rows = map_err corrupt (do
    request ← parse_request row.request
    effects ← decode_effects rows
    r ← make_mission_record rt (record {
      schema_version = row.schema_version;
      mission_key = row.mission_key;
      content_fingerprint = row.content_fingerprint;
      request = request;
      state = row.state;
      effects = effects;
      created_at_utc = utc row.created_at;
      updated_at_utc = utc row.updated_at;
    })
    reject (ltb row.revision 1) Code.corrupt_record
    ok (record { entry = r; revision = row.revision }))

  abbrev pub reconstruct_found : Option MissionRow → List EffectRow → Result (Option StoredMission)
  reconstruct_found none rows = ok none
  reconstruct_found (some row) rows = do s ← reconstruct row rows; ok (some s)

  unfoldable pub load : String → MissionTables → Result (Option StoredMission)
  load key t =
      reconstruct_found (find (λ (row : MissionRow). row.mission_key == key) t.missions)
        (sort_by (λ (row : EffectRow). row.effect_ref) (effects_of key t.effects))

  unfoldable pub insert_new : MissionRecord → MissionTables → Result (StoredMission × MissionTables)
  insert_new r t = do
    created ← serialize r.created_at_utc
    updated ← serialize r.updated_at_utc
    let row : MissionRow = record {
      mission_key = r.mission_key;
      schema_version = r.schema_version;
      content_fingerprint = r.content_fingerprint;
      request = r.request;
      state = r.state;
      created_at = created;
      updated_at = updated;
      revision = 1;
    }
    effects ← insert_effects r.effects t.effects
    let t' : MissionTables = record { missions = row ∷ t.missions; effects = effects }
    found ← load r.mission_key t'
    s ← require_found Code.database_error found
    ok (s, t')

  abbrev create_found :
      MissionRecord → Option StoredMission → MissionTables → Result (StoredMission × MissionTables)
  create_found r none t = insert_new r t
  create_found r (some existing) t =
      if existing.entry.content_fingerprint == r.content_fingerprint
      then ok (existing, t)
      else fail_store Code.mission_conflict

  unfoldable pub create_operation :
      MissionRecord → MissionTables → Result (StoredMission × MissionTables)
  create_operation r t = do existing ← load r.mission_key t; create_found r existing t

  unfoldable pub create : MissionRecord → MissionDb → Result StoredMission × MissionDb
  create r db =
      if not (same_mission_state r.state MissionState.received)
        || any (λ (e : EffectRecord). not (same_effect_state e.state EffectState.planned)) r.effects
      then (fail_store Code.invalid_initial_aggregate, db)
      else write ErrorClass.mission_store translate (create_operation r) db

  unfoldable pub get : String → MissionDb → Result (Option StoredMission) × MissionDb
  get key = read ErrorClass.mission_store (load key)

  unfoldable pub rewrite :
      MissionRecord → ℕ → MissionTables → Result (StoredMission × MissionTables)
  rewrite r expected t = do
    updated ← serialize r.updated_at_utc
    reject (not (nat_eq (matching_missions r.mission_key expected t.missions) 1))
        Code.stale_revision
    effects ← update_effects r.mission_key r.effects t.effects
    let t' : MissionTables = record {
      missions = update_missions r.mission_key expected r.state updated t.missions;
      effects = effects;
    }
    found ← load r.mission_key t'
    s ← require_found Code.database_error found
    reject (not (nat_eq s.revision (expected + 1))) Code.database_error
    ok (s, t')

  -- `_transition` inside its transaction
  unfoldable pub apply_operation :
      String
      → ℕ
      → (MissionRecord → Result MissionRecord)
      → MissionTables
      → Result (StoredMission × MissionTables)
  apply_operation key expected operation t = do
    found ← load key t
    current ← require_found Code.mission_not_found found
    reject (not (nat_eq current.revision expected)) Code.stale_revision
    transitioned ← operation current.entry
    rewrite transitioned expected t

  unfoldable pub move_mission :
      String → ℕ → MissionState → Datetime → MissionDb → Result StoredMission × MissionDb
  move_mission key expected target at =
      write ErrorClass.mission_store translate
        (apply_operation key expected (λ r. transition_mission rt r target at))

  unfoldable pub move_effect :
      String → String → ℕ → EffectState → Datetime → MissionDb → Result StoredMission × MissionDb
  move_effect key ref expected target at =
      write ErrorClass.mission_store translate
        (apply_operation key expected (λ r. transition_mission_effect rt r ref target at))

  abbrev load_all : List MissionRow → MissionTables → Result (List StoredMission)
  load_all [] t = ok []
  load_all (row ∷ rows) t = do
    found ← load row.mission_key t
    s ← require_found Code.corrupt_record found
    rest ← load_all rows t
    ok (s ∷ rest)

  unfoldable pub list_restart_candidates : MissionDb → Result (List StoredMission) × MissionDb
  list_restart_candidates =
      read ErrorClass.mission_store (λ t.
        load_all (sort_by (λ (row : MissionRow). row.mission_key) (restart_rows t.missions)) t)
