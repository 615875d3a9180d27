-- ===== src/Persistence/MissionStore/Rows.antt =====
-- What a Mission that is loaded shows of its rows, in src/nexus_vector/persistence/sqlite_mission_store.py.
use nexus_vector_keeperhub.Prelude.{
  ℕ, ◌+◌, String, ◌≡◌, ap, ◌∙◌, inl, inr, Option, some, List, [], ◌∷◌, ◌==◌, ltb, find, arith,
  Option-cases, eq_iff,
}
use nexus_vector_keeperhub.Prelude.Sorting.{sort_by}
use nexus_vector_keeperhub.Errors.{ErrorClass, Code, ok, bind-ok, guard-ok, map_err-ok}
use nexus_vector_keeperhub.Clock.{utc}
use nexus_vector_keeperhub.Runtime.{Runtime}
use nexus_vector_keeperhub.Mission.States.{MissionState}
use nexus_vector_keeperhub.Mission.Records.{StoredMission, MissionRecord}
use nexus_vector_keeperhub.Mission.Transitions.Laws.{make_mission_record-same}
use nexus_vector_keeperhub.Persistence.MissionTables.{
  MissionRow, EffectRow, MissionTables, corrupt, effects_of, update_missions,
}
use nexus_vector_keeperhub.Persistence.MissionStore.{
  parse_request, decode_effects, reconstruct, load,
}

-- The row of a Mission, and the rows of its effects in the order in which they are read.
abbrev pub mission_row : String → MissionTables → Option MissionRow
mission_row key t = find (λ (row : MissionRow). row.mission_key == key) t.missions

abbrev pub effect_rows : String → MissionTables → List EffectRow
effect_rows key t = sort_by (λ (row : EffectRow). row.effect_ref) (effects_of key t.effects)

module _ (rt : Runtime) where
  pub record Shows (s : StoredMission) (row : MissionRow) (rows : List EffectRow) : Type 0 where
    pub key : s.entry.mission_key ≡ row.mission_key
    pub schema : s.entry.schema_version ≡ row.schema_version
    pub content : s.entry.content_fingerprint ≡ row.content_fingerprint
    pub request : parse_request rt row.request ≡ ok s.entry.request
    pub state : s.entry.state ≡ row.state
    pub effects : decode_effects rt rows ≡ ok s.entry.effects
    pub created : s.entry.created_at_utc ≡ utc row.created_at
    pub updated : s.entry.updated_at_utc ≡ utc row.updated_at
    pub revision : s.revision ≡ row.revision

  reconstruct-Shows :
      (row : MissionRow) (rows : List EffectRow) {s : StoredMission}
      → reconstruct rt row rows ≡ ok s
      → Shows s row rows
  unfolding reconstruct
  reconstruct-Shows row rows {s} h = bind-ok _ _ (map_err-ok corrupt _ h) (λ request e1 h1.
      bind-ok _ _ h1 (λ effects e2 h2. bind-ok _ _ h2 (λ r e3 h3.
        let (positive, h4) =
          guard-ok (ltb row.revision 1) ErrorClass.mission_store Code.corrupt_record
            (ok (record { entry = r; revision = row.revision })) h3 in
        let same = make_mission_record-same rt _ e3 in
        let entry : s.entry ≡ record {
          schema_version = row.schema_version;
          mission_key = row.mission_key;
          content_fingerprint = row.content_fingerprint;
          request = request;
          state = row.state;
          effects = effects;
          created_at_utc = utc row.created_at;
          updated_at_utc = utc row.updated_at;
        } =
          ground (arith, h4, same) in
        record {
          key = ap (λ (x : MissionRecord). x.mission_key) entry;
          schema = ap (λ (x : MissionRecord). x.schema_version) entry;
          content = ap (λ (x : MissionRecord). x.content_fingerprint) entry;
          request = e1 ∙ ap ok (ground (arith, entry));
          state = ap (λ (x : MissionRecord). x.state) entry;
          effects = e2 ∙ ap ok (ground (arith, entry));
          created = ap (λ (x : MissionRecord). x.created_at_utc) entry;
          updated = ap (λ (x : MissionRecord). x.updated_at_utc) entry;
          revision = ground (arith, h4);
        })))

  pub load-Shows :
      (key : String) (t : MissionTables) {s : StoredMission}
      → load rt key t ≡ ok (some s)
      → (row : MissionRow) × (mission_row key t ≡ some row) × Shows s row (effect_rows key t)
  unfolding load
  load-Shows key t {s} h = elim (Option-cases (mission_row key t)) [
    | inl missing ↦ absurd (ground (arith, h, missing))
    | inr (row, found) ↦
        bind-ok (reconstruct rt row (effect_rows key t)) _ (rw found at h) (λ x e h1.
          (row, found, reconstruct-Shows row (effect_rows key t) (e ∙ ap ok (ground (arith, h1)))))
  ]

-- The row that is found has the key that it was looked up by.
pub mission_row-key :
    (key : String) (rows : List MissionRow) {row : MissionRow}
    → find (λ (x : MissionRow). x.mission_key == key) rows ≡ some row
    → row.mission_key ≡ key
mission_row-key key [] h = absurd (cc)
mission_row-key key (x ∷ t) {row} h =
    ground (arith, h, eq_iff x.mission_key key, mission_row-key key t {row = row})

-- The update reaches the row that is found under the key, where it has the expected revision.
pub mission_row-update :
    (key : String) (expected : ℕ) (st : MissionState) (at : ℕ) (rows : List MissionRow)
    {row : MissionRow}
    → find (λ (x : MissionRow). x.mission_key == key) rows ≡ some row
    → row.revision ≡ expected
    → find (λ (x : MissionRow). x.mission_key == key) (update_missions key expected st at rows)
      ≡ some (record row { state = st; updated_at = at; revision = row.revision + 1 })
unfolding update_missions
mission_row-update key expected st at [] h r = absurd (cc)
mission_row-update key expected st at (x ∷ t) {row} h r =
    ground (arith, h, r, mission_row-update key expected st at t {row = row})
