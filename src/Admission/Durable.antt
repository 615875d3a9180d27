-- ===== src/Admission/Durable.antt =====
-- What an admission that returns has established.
use mathlib.Core.Path.{subst}
use nexus_vector_keeperhub.Prelude.{
  ◌≡◌, ◌∙◌, refl, sym, ap, inl, inr, String, true, Option, some, none, ◌==◌, arith, Bool-cases,
  eq_iff,
}
use nexus_vector_keeperhub.Errors.{Result, ok, Result-cases}
use nexus_vector_keeperhub.Clock.{Datetime}
use nexus_vector_keeperhub.Runtime.{Runtime}
use nexus_vector_keeperhub.Mission.Records.{MissionRequest, MissionRecord, StoredMission}
use nexus_vector_keeperhub.Mission.Initial.{create_initial_mission_record}
use nexus_vector_keeperhub.Persistence.Database.{read}
use nexus_vector_keeperhub.Persistence.MissionTables.{MissionDb, initialize}
use nexus_vector_keeperhub.Persistence.MissionStore.{create, get, load}
use nexus_vector_keeperhub.Admission.{
  is_admitted, admission_loop, confirm_admission, max_admission_steps, admit,
}

module _ (rt : Runtime) where
  -- What stands in the database when an admission of `initial` returns `final`.
  pub record Admitted (initial : MissionRecord) (final : StoredMission) (db : MissionDb)
      : Type 0 where
    pub state : is_admitted final.entry.state ≡ true
    pub content : final.entry.content_fingerprint ≡ initial.content_fingerprint
    pub durable : load rt initial.mission_key db.tables ≡ ok (some final)

  get-load :
      (key : String) (db : MissionDb) {found : Option StoredMission}
      → (get rt key db).0 ≡ ok found
      → load rt key (get rt key db).1.tables ≡ ok found
  unfolding get read
  get-load key db h = ground (arith, h)

  confirm_admission-Admitted :
      (initial : MissionRecord) (db : MissionDb) {final : StoredMission}
      → (confirm_admission rt initial db).0 ≡ ok final
      → Admitted initial final (confirm_admission rt initial db).1
  unfolding confirm_admission
  confirm_admission-Admitted initial db {final} h =
      elim (Result-cases (get rt initial.mission_key db).0) [
        | inl (e, unread) ↦ absurd (ground (arith, h, unread))
        | inr (none, absent) ↦ absurd (ground (arith, h, absent))
        | inr (some s, there) ↦
            elim (Bool-cases (s.entry.content_fingerprint == initial.content_fingerprint)) [
              | inr differs ↦ absurd (ground (arith, h, there, differs))
              | inl agrees ↦ elim (Bool-cases (is_admitted s.entry.state)) [
                | inr early ↦ absurd (ground (arith, h, there, agrees, early))
                | inl admitted ↦
                    let same : s ≡ final = ground (arith, h, there, agrees, admitted) in
                    record {
                      state = ground (arith, same, admitted);
                      content = ground (
                        arith,
                        same,
                        agrees,
                        eq_iff s.entry.content_fingerprint initial.content_fingerprint,
                      );
                      durable = ground (
                        arith,
                        same,
                        there,
                        agrees,
                        admitted,
                        get-load initial.mission_key db there,
                      );
                    }
              ]
            ]
      ]

  -- An admission that returns a Mission leaves it in the database under the key of the request,
  -- with the content fingerprint of the request, in a state that a Mission reaches by being
  -- persisted and not before.
  pub admit-Admitted :
      (request : MissionRequest) (at : Datetime) (db : MissionDb) (final : StoredMission)
      → (admit rt request at db).0 ≡ ok final
      → (initial : MissionRecord) × (create_initial_mission_record rt request at ≡ ok initial)
        × Admitted initial final (admit rt request at db).1
  unfolding admit
  admit-Admitted request at db final h =
      elim (Result-cases (create_initial_mission_record rt request at)) [
        | inl (e, invalid) ↦ absurd (ground (arith, h, invalid))
        | inr (initial, valid) ↦ elim (Result-cases (initialize db).0) [
          | inl (e, e1) ↦ absurd (ground (arith, h, valid, e1))
          | inr (x, e1) ↦
              let db1 = (initialize db).1 in
              elim (Result-cases (create rt initial db1).0) [
                | inl (e, e2) ↦ absurd (ground (arith, h, valid, e1, e2))
                | inr (current, e2) ↦
                    let db2 = (create rt initial db1).1 in
                    elim (Result-cases
                      (admission_loop rt max_admission_steps initial.mission_key at current
                        db2).0) [
                          | inl (e, e3) ↦ absurd (ground (arith, h, valid, e1, e2, e3))
                          | inr (y, e3) ↦
                              let db3 =
                                (admission_loop rt max_admission_steps initial.mission_key at
                                  current db2).1 in
                              let end : (admit rt request at db)
                                  ≡ confirm_admission rt initial db3 =
                                rw (valid, e1, e2, e3) refl in
                              (
                                initial,
                                valid,
                                subst
                                    (λ (w : Result StoredMission × MissionDb).
                                      Admitted initial final w.1)
                                    (sym end)
                                    (confirm_admission-Admitted initial db3 (
                                      ap (λ (w : Result StoredMission × MissionDb). w.0) (sym end)
                                      ∙ h)),
                              )
                        ]
              ]
        ]
      ]
