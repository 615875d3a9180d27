-- ===== src/Persistence/AttemptStore/Rows.antt =====
-- What the operations of the attempt store do to the rows of its table.
use mathlib.Core.Path.{subst}
use nexus_vector_keeperhub.Prelude.{
  ℕ, ◌+◌, String, ◌≡◌, ◌≢◌, refl, ap, ◌∙◌, inl, inr, none, some, [], ◌∷◌, arith, eq_iff,
  Option-cases,
}
use nexus_vector_keeperhub.Errors.{ok, Result-cases}
use nexus_vector_keeperhub.Clock.{utc}
use nexus_vector_keeperhub.Runtime.{Runtime}
use nexus_vector_keeperhub.Attempt.{AttemptRecord, make_plan, make_record}
use nexus_vector_keeperhub.Attempt.States.{AttemptState}
use nexus_vector_keeperhub.Attempt.Moves.{
  IsValid, make_plan-keeps, make_record-same, make_record-IsValid,
}
use nexus_vector_keeperhub.Persistence.AttemptStore.{
  StoredAttempt, AttemptRow, AttemptTable, row_of, decode, load, update_rows,
}

-- A loaded attempt shows the columns of its row.
pub record Shows (s : StoredAttempt) (row : AttemptRow) : Type 0 where
  pub id : s.entry.attempt_id ≡ row.attempt_id
  pub mission : s.entry.plan.mission_key ≡ row.plan.mission_key
  pub effect : s.entry.plan.effect_id ≡ row.plan.effect_id
  pub state : s.entry.state ≡ row.state
  pub created : s.entry.created_at_utc ≡ utc row.created_at
  pub updated : s.entry.updated_at_utc ≡ utc row.updated_at
  pub revision : s.revision ≡ row.revision

-- The row that is found has the identifier that it was looked up by.
pub row_of-id :
    (id : String) (t : AttemptTable) {row : AttemptRow}
    → row_of id t ≡ some row
    → row.attempt_id ≡ id
unfolding row_of
row_of-id id [] h = cc
row_of-id id (x ∷ t) {row} h = ground (arith, eq_iff x.attempt_id id, row_of-id id t {row = row})

module _ (id : String) (expected : ℕ) (st : AttemptState) (at : ℕ) where
  -- The update reaches the row with the identifier and the revision, and no other identifier.
  pub row_of-update_rows :
      (t : AttemptTable) {row : AttemptRow}
      → row_of id t ≡ some row
      → row.revision ≡ expected
      → row_of id (update_rows id expected st at t)
        ≡ some (record row { state = st; updated_at = at; revision = row.revision + 1 })
  unfolding row_of update_rows
  row_of-update_rows [] h r = cc
  row_of-update_rows (x ∷ t) {row} h r = ground (arith, row_of-update_rows t {row = row})

  pub row_of-update_rows_ne :
      (j : String) (t : AttemptTable)
      → j ≢ id
      → row_of j (update_rows id expected st at t) ≡ row_of j t
  unfolding row_of update_rows
  row_of-update_rows_ne j [] ne = refl
  row_of-update_rows_ne j (x ∷ t) ne =
      ground (arith, eq_iff x.attempt_id id, eq_iff x.attempt_id j, row_of-update_rows_ne j t ne)

module _ (rt : Runtime) where
  pub decode-Shows :
      (row : AttemptRow) {s : StoredAttempt}
      → decode rt row ≡ ok s
      → Shows s row × IsValid rt s.entry
  unfolding decode
  decode-Shows row {s} h = elim (Result-cases (make_plan rt row.plan)) [
    | inl (e, refused) ↦ ground arith
    | inr (plan, planned) ↦
        let r : AttemptRecord = record {
          attempt_id = row.attempt_id;
          plan = plan;
          state = row.state;
          created_at_utc = utc row.created_at;
          updated_at_utc = utc row.updated_at;
        } in
        elim (Result-cases (make_record rt r)) [
          | inl (e, refused) ↦ ground arith
          | inr (made, built) ↦ (
            ground (arith, make_record-same rt r built, make_plan-keeps rt row.plan planned),
            subst (IsValid rt) (ground (arith, make_record-same rt r built))
                (make_record-IsValid rt r built),
          )
        ]
  ]

  pub load-Shows :
      (id : String) (t : AttemptTable) {s : StoredAttempt}
      → load rt id t ≡ ok (some s)
      → (row : AttemptRow) × (row_of id t ≡ some row) × Shows s row × IsValid rt s.entry
  unfolding load
  load-Shows id t {s} h = elim (Option-cases (row_of id t)) [
    | inl missing ↦ ground arith
    | inr (row, found) ↦ elim (Result-cases (decode rt row)) [
      | inl (e, bad) ↦ ground arith
      | inr (stored, good) ↦
          let shown : Shows s row × IsValid rt s.entry =
            decode-Shows row (good ∙ ap ok (ground arith)) in
          (row, found, shown.0, shown.1)
    ]
  ]

  pub load-none : (id : String) (t : AttemptTable) → load rt id t ≡ ok none → row_of id t ≡ none
  unfolding load
  load-none id t h = elim (Option-cases (row_of id t)) [
    | inl missing ↦ missing
    | inr (row, found) ↦ elim (Result-cases (decode rt row)) [
      | inl (e, bad) ↦ ground arith
      | inr (stored, good) ↦ ground arith
    ]
  ]
