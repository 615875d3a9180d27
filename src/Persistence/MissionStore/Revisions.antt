-- ===== src/Persistence/MissionStore/Revisions.antt =====
-- Compare-and-swap on a Mission, in src/nexus_vector/persistence/sqlite_mission_store.py.
use mathlib.Core.Path.{subst}
use nexus_vector_keeperhub.Prelude.{
  true, ℕ, List, ◌+◌, ◌≡◌, sym, ap, ◌∙◌, String, some, some_injective, find, ◌==◌,
}
use nexus_vector_keeperhub.Errors.{ok, ok_injective}
use nexus_vector_keeperhub.Clock.{Datetime, utc}
use nexus_vector_keeperhub.Runtime.{Runtime}
use nexus_vector_keeperhub.Mission.States.{MissionState, mission_allowed}
use nexus_vector_keeperhub.Mission.Records.{MissionRecord, StoredMission}
use nexus_vector_keeperhub.Mission.Transitions.{transition_mission}
use nexus_vector_keeperhub.Mission.Transitions.Laws.{transition_mission-Moved}
use nexus_vector_keeperhub.Persistence.MissionTables.{
  MissionTables, MissionDb, matching_missions, update_missions, update_effects,
}
use nexus_vector_keeperhub.Persistence.MissionStore.{load, move_mission}
use nexus_vector_keeperhub.Persistence.MissionStore.Rows.{Shows, load-Shows, mission_row-update}
use nexus_vector_keeperhub.Persistence.MissionStore.Effects.{
  update_effects-same, effect_rows-IsStored,
}
use nexus_vector_keeperhub.Persistence.MissionTables.{MissionRow, EffectRow, effects_of}
use nexus_vector_keeperhub.Prelude.Sorting.{sort_by}
use nexus_vector_keeperhub.Persistence.MissionStore.Rows.{effect_rows}
use nexus_vector_keeperhub.Persistence.MissionStore.Applied.{
  Rewritten, move_mission-Applied, load-key,
}

module _ (rt : Runtime) where
  -- Two Missions that are read from rows with the same request and effects.
  same_entry :
      (s u : StoredMission) (row : MissionRow) (st : MissionState) (at revision : ℕ)
      (rows : List EffectRow)
      → Shows rt s (record row { state = st; updated_at = at; revision = revision }) rows
      → Shows rt u row rows
      → s.entry ≡ record u.entry { state = st; updated_at_utc = utc at }
  same_entry s u row st at revision rows new old =
      let request : s.entry.request ≡ u.entry.request =
        ok_injective (sym new.request ∙ old.request) in
      let effects : s.entry.effects ≡ u.entry.effects =
        ok_injective (sym new.effects ∙ old.effects) in
      λ i. record {
        schema_version = (new.schema ∙ sym old.schema) i;
        mission_key = (new.key ∙ sym old.key) i;
        content_fingerprint = (new.content ∙ sym old.content) i;
        request = request i;
        state = new.state i;
        effects = effects i;
        created_at_utc = (new.created ∙ sym old.created) i;
        updated_at_utc = new.updated i;
      }

  -- A transition of a Mission that took place.
  pub record Swapped (key : String) (expected : ℕ) (target : MissionState) (at : Datetime)
      (t : MissionTables) (s : StoredMission) (t' : MissionTables) : Type 0 where
    pub current : StoredMission
    pub loaded : load rt key t ≡ ok (some current)
    pub expected_revision : current.revision ≡ expected
    pub one_row : matching_missions key expected t.missions ≡ 1
    pub transitioned : MissionRecord
    pub accepted : transition_mission rt current.entry target at ≡ ok transitioned
    pub permitted : mission_allowed current.entry.state target ≡ true
    pub stored : s.entry ≡ record current.entry { state = target; updated_at_utc = utc at.instant }
    pub next_revision : s.revision ≡ expected + 1
    pub reloaded : load rt key t' ≡ ok (some s)
    pub effects : t'.effects ≡ t.effects

  -- What the update of a moved Mission has written, under the key of the Mission.
  record Written (key : String) (expected : ℕ) (target : MissionState) (at : Datetime)
      (c : MissionRecord) (t : MissionTables) (s : StoredMission) (t' : MissionTables)
      : Type 0 where
    missions : t'.missions ≡ update_missions key expected target at.instant t.missions
    effects : update_effects key c.effects t.effects ≡ ok t'.effects
    one_row : matching_missions key expected t.missions ≡ 1
    reloaded : load rt key t' ≡ ok (some s)

  Rewritten-Written :
      (expected : ℕ) (target : MissionState) (at : Datetime) (c r : MissionRecord)
      (t : MissionTables) (s : StoredMission) (t' : MissionTables)
      → r ≡ record c { state = target; updated_at_utc = at }
      → Rewritten rt r expected t s t'
      → Written c.mission_key expected target at c t s t'
  Rewritten-Written expected target at c r t s t' result w =
      let same_key = ap (λ (x : MissionRecord). x.mission_key) (sym result) in
      record {
        missions =
            w.missions
            ∙ ap
                (λ (x : MissionRecord).
                  update_missions x.mission_key expected x.state x.updated_at_utc.instant
                    t.missions)
                result;
        effects =
            ap (λ (x : MissionRecord). update_effects x.mission_key x.effects t.effects)
              (sym result)
            ∙ w.effects;
        one_row = ap (λ k. matching_missions k expected t.missions) same_key ∙ w.one_row;
        reloaded = ap (λ k. load rt k t') same_key ∙ w.reloaded;
      }

  -- A transition of a Mission that returns was permitted by the table for the record that was loaded at
  -- the expected revision, which one row had. The Mission that it returns, and that can be loaded from
  -- the new tables under the same key, is that record with the new state, with the instant of the
  -- transition as that of the last change, and with the next revision; the table of effects is as it
  -- was.
  pub move_mission-Swapped :
      (key : String) (expected : ℕ) (target : MissionState) (at : Datetime) (db : MissionDb)
      (s : StoredMission)
      → (move_mission rt key expected target at db).0 ≡ ok s
      → Swapped key expected target at db.tables s
          (move_mission rt key expected target at db).1.tables
  move_mission-Swapped key expected target at db s h =
      let t = db.tables in
      let t' = (move_mission rt key expected target at db).1.tables in
      let a = move_mission-Applied rt key expected target at db h in
      let m = transition_mission-Moved rt a.current.entry target at a.transitioned a.permitted in
      let w : Written key expected target at a.current.entry t s t' =
        subst (λ k. Written k expected target at a.current.entry t s t')
          (load-key rt key t a.loaded)
          (Rewritten-Written expected target at a.current.entry a.transitioned t s t' m.result
            a.written) in
      let (row, found, old) = load-Shows rt key t a.loaded in
      let (row', found', new) = load-Shows rt key t' w.reloaded in
      let effects : t'.effects ≡ t.effects =
        update_effects-same key a.current.entry.effects t.effects
          (effect_rows-IsStored rt key t old.effects) w.effects in
      let moved_row : MissionRow = record row {
        state = target;
        updated_at = at.instant;
        revision = row.revision + 1;
      } in
      let moved : row' ≡ moved_row = some_injective (
        sym found'
        ∙ ap (find (λ (x : MissionRow). x.mission_key == key)) w.missions
        ∙ mission_row-update key expected target at.instant t.missions found
            (sym old.revision ∙ a.expected_revision)) in
      let shown : Shows rt s moved_row (effect_rows key t) =
        subst (Shows rt s moved_row)
          (ap (λ es. sort_by (λ (x : EffectRow). x.effect_ref) (effects_of key es)) effects)
          (subst (λ r. Shows rt s r (effect_rows key t')) moved new) in
      record {
        current = a.current;
        loaded = a.loaded;
        expected_revision = a.expected_revision;
        one_row = w.one_row;
        transitioned = a.transitioned;
        accepted = a.permitted;
        permitted = m.permitted;
        stored =
            same_entry s a.current row target at.instant (row.revision + 1) (effect_rows key t)
              shown old;
        next_revision = a.written.next_revision;
        reloaded = w.reloaded;
        effects = effects;
      }
