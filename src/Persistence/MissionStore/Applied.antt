-- ===== src/Persistence/MissionStore/Applied.antt =====
-- The steps of `_transition` of src/nexus_vector/persistence/sqlite_mission_store.py where it returns.
use nexus_vector_keeperhub.Prelude.{
  ℕ, ◌+◌, ◌≡◌, ap, ◌∙◌, inl, inr, String, some, none, nat_eq, arith, Bool-cases,
}
use nexus_vector_keeperhub.Errors.{ErrorClass, Result, ok, Result-cases}
use nexus_vector_keeperhub.Clock.{Datetime, require_utc-cases}
use nexus_vector_keeperhub.Runtime.{Runtime}
use nexus_vector_keeperhub.Mission.States.{MissionState, EffectState}
use nexus_vector_keeperhub.Mission.Records.{MissionRecord, StoredMission}
use nexus_vector_keeperhub.Mission.Transitions.{transition_mission, transition_mission_effect}
use nexus_vector_keeperhub.Persistence.Database.{write-committed}
use nexus_vector_keeperhub.Persistence.MissionTables.{
  MissionTables, MissionDb, translate, matching_missions, update_missions, update_effects,
}
use nexus_vector_keeperhub.Persistence.MissionStore.{
  load, rewrite, apply_operation, move_mission, move_effect,
}
use nexus_vector_keeperhub.Persistence.MissionStore.Rows.{load-Shows, mission_row-key}

module _ (rt : Runtime) where
  -- The steps of the update where it returns: what it writes, and the read that follows.
  pub record Rewritten (r : MissionRecord) (expected : ℕ) (t : MissionTables) (s : StoredMission)
      (t' : MissionTables) : Type 0 where
    pub missions :
        t'.missions
        ≡ update_missions r.mission_key expected r.state r.updated_at_utc.instant t.missions
    pub effects : update_effects r.mission_key r.effects t.effects ≡ ok t'.effects
    pub one_row : matching_missions r.mission_key expected t.missions ≡ 1
    pub reloaded : load rt r.mission_key t' ≡ ok (some s)
    pub next_revision : s.revision ≡ expected + 1

  rewrite-Rewritten :
      (r : MissionRecord) (expected : ℕ) (t : MissionTables) {s : StoredMission}
      {t' : MissionTables}
      → rewrite rt r expected t ≡ ok (s, t')
      → Rewritten r expected t s t'
  unfolding rewrite
  rewrite-Rewritten r expected t {s} {t'} h =
      elim (require_utc-cases ErrorClass.mission_store r.updated_at_utc) [
        | inr (e, e1) ↦ absurd (ground (arith, h, e1))
        | inl e1 ↦
            elim (Bool-cases (nat_eq (matching_missions r.mission_key expected t.missions) 1)) [
              | inr many ↦ absurd (ground (arith, h, e1, many))
              | inl one ↦ elim (Result-cases (update_effects r.mission_key r.effects t.effects)) [
                | inl (e, e2) ↦ absurd (ground (arith, h, e1, one, e2))
                | inr (effects, e2) ↦
                    let new : MissionTables = record {
                      missions =
                          update_missions r.mission_key expected r.state r.updated_at_utc.instant
                            t.missions;
                      effects = effects;
                    } in
                    elim (Result-cases (load rt r.mission_key new)) [
                      | inl (e, e3) ↦ absurd (ground (arith, h, e1, one, e2, e3))
                      | inr (none, e3) ↦ absurd (ground (arith, h, e1, one, e2, e3))
                      | inr (some found, e3) ↦ record {
                        missions = ground (arith, h, e1, one, e2, e3);
                        effects = e2 ∙ ap ok (ground (arith, h, e1, one, e2, e3));
                        one_row = ground (arith, one);
                        reloaded = ground (arith, h, e1, one, e2, e3);
                        next_revision = ground (arith, h, e1, one, e2, e3);
                      }
                    ]
              ]
            ]
      ]

  -- The steps of `_transition` where it returns.
  pub record Applied (key : String) (expected : ℕ)
      (operation : MissionRecord → Result MissionRecord) (t : MissionTables) (s : StoredMission)
      (t' : MissionTables) : Type 0 where
    pub current : StoredMission
    pub transitioned : MissionRecord
    pub loaded : load rt key t ≡ ok (some current)
    pub expected_revision : current.revision ≡ expected
    pub permitted : operation current.entry ≡ ok transitioned
    pub written : Rewritten transitioned expected t s t'

  apply_operation-Applied :
      (key : String) (expected : ℕ) (operation : MissionRecord → Result MissionRecord)
      (t : MissionTables) {s : StoredMission} {t' : MissionTables}
      → apply_operation rt key expected operation t ≡ ok (s, t')
      → Applied key expected operation t s t'
  unfolding apply_operation
  apply_operation-Applied key expected operation t {s} {t'} h =
      elim (Result-cases (load rt key t)) [
        | inl (e, unread) ↦ absurd (ground (arith, h, unread))
        | inr (none, absent) ↦ absurd (ground (arith, h, absent))
        | inr (some current, there) ↦ elim (Bool-cases (nat_eq current.revision expected)) [
          | inr stale ↦ absurd (ground (arith, h, there, stale))
          | inl fresh ↦ elim (Result-cases (operation current.entry)) [
            | inl (e, refused) ↦ absurd (ground (arith, h, there, fresh, refused))
            | inr (r, permitted) ↦
                let w =
                  rewrite-Rewritten r expected t {s = s} {t' = t'}
                    (ground (arith, h, there, fresh, permitted)) in
                record {
                  current = current;
                  transitioned = r;
                  loaded = there;
                  expected_revision = ground (arith, fresh);
                  permitted = permitted;
                  written = w;
                }
          ]
        ]
      ]

  pub move_mission-Applied :
      (key : String) (expected : ℕ) (target : MissionState) (at : Datetime) (db : MissionDb)
      {s : StoredMission}
      → (move_mission rt key expected target at db).0 ≡ ok s
      → Applied key expected
          (λ r. transition_mission rt r target at)
          db.tables
          s
          (move_mission rt key expected target at db).1.tables
  unfolding move_mission
  move_mission-Applied key expected target at db h =
      apply_operation-Applied key expected (λ r. transition_mission rt r target at) db.tables
        (write-committed ErrorClass.mission_store translate
          (apply_operation rt key expected (λ r. transition_mission rt r target at)) db h)

  pub move_effect-Applied :
      (key ref : String) (expected : ℕ) (target : EffectState) (at : Datetime) (db : MissionDb)
      {s : StoredMission}
      → (move_effect rt key ref expected target at db).0 ≡ ok s
      → Applied key expected
          (λ r. transition_mission_effect rt r ref target at)
          db.tables
          s
          (move_effect rt key ref expected target at db).1.tables
  unfolding move_effect
  move_effect-Applied key ref expected target at db h =
      apply_operation-Applied key expected (λ r. transition_mission_effect rt r ref target at)
        db.tables
        (write-committed ErrorClass.mission_store translate
          (apply_operation rt key expected (λ r. transition_mission_effect rt r ref target at)) db
          h)

  pub load-key :
      (key : String) (t : MissionTables) {s : StoredMission}
      → load rt key t ≡ ok (some s)
      → s.entry.mission_key ≡ key
  load-key key t h =
      let (row, found, shown) = load-Shows rt key t h in
      shown.key ∙ mission_row-key key t.missions found
