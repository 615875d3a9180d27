-- ===== src/Persistence/AttemptStore/Creation.antt =====
-- What `create` of the attempt store does, on every branch that returns.
use nexus_vector_keeperhub.Prelude.{
  ◌≡◌, ap, ◌∙◌, ◌⊎◌, inl, inr, none, some, ◌∷◌, arith, eq_refl, true, Option-cases, Bool-cases,
}
use mathlib.Core.Path.{subst}
use nexus_vector_keeperhub.Errors.{ErrorClass, ok, Result-cases}
use nexus_vector_keeperhub.Clock.{require_utc-cases}
use nexus_vector_keeperhub.Runtime.{Runtime}
use nexus_vector_keeperhub.Attempt.{AttemptRecord}
use nexus_vector_keeperhub.Persistence.AttemptStore.{
  StoredAttempt, AttemptRow, AttemptTable, row_of, row_of_effect, load, insert_new,
  create_operation, same_plan,
}
use nexus_vector_keeperhub.Persistence.AttemptStore.Rows.{Shows, load-Shows, load-none}

-- The row that `create` inserts for a record.
abbrev pub new_row : AttemptRecord → AttemptRow
new_row r = record {
  attempt_id = r.attempt_id;
  plan = r.plan;
  state = r.state;
  created_at = r.created_at_utc.instant;
  updated_at = r.updated_at_utc.instant;
  revision = 1;
}

-- The attempt was there, with the same plan, and nothing was written.
pub record Existing (r : AttemptRecord) (t : AttemptTable) (s : StoredAttempt) (t' : AttemptTable)
    : Type 0 where
  pub row : AttemptRow
  pub found : row_of r.attempt_id t ≡ some row
  pub shown : Shows s row
  pub plan : same_plan s.entry.plan r.plan ≡ true
  pub table : t' ≡ t

-- Neither the attempt nor another for its effect was there, and one row was added.
pub record Inserted (r : AttemptRecord) (t : AttemptTable) (s : StoredAttempt) (t' : AttemptTable)
    : Type 0 where
  pub fresh : row_of r.attempt_id t ≡ none
  pub free : row_of_effect r.plan.effect_id t ≡ none
  pub shown : Shows s (new_row r)
  pub table : t' ≡ new_row r ∷ t

module _ (rt : Runtime) where
  load-new_row :
      (r : AttemptRecord) (t : AttemptTable) {s : StoredAttempt}
      → load rt r.attempt_id (new_row r ∷ t) ≡ ok (some s)
      → Shows s (new_row r)
  unfolding row_of
  load-new_row r t {s} h =
      let back = load-Shows rt r.attempt_id (new_row r ∷ t) h in
      subst (Shows s) (ground (arith, eq_refl r.attempt_id, back.1)) back.2

  insert_new-Inserted :
      (r : AttemptRecord) (t : AttemptTable) {s : StoredAttempt} {t' : AttemptTable}
      → row_of r.attempt_id t ≡ none
      → insert_new rt r t ≡ ok (s, t')
      → Inserted r t s t'
  unfolding insert_new
  insert_new-Inserted r t {s} {t'} fresh h =
      elim (Option-cases (row_of_effect r.plan.effect_id t)) [
        | inr (row, taken) ↦ ground arith
        | inl free ↦ elim (require_utc-cases ErrorClass.attempt_store r.created_at_utc) [
          | inr (e, bad) ↦ ground arith
          | inl created ↦ elim (require_utc-cases ErrorClass.attempt_store r.updated_at_utc) [
            | inr (e, bad) ↦ ground arith
            | inl updated ↦ elim (Result-cases (load rt r.attempt_id (new_row r ∷ t))) [
              | inl (e, unread) ↦ ground arith
              | inr (found, loaded) ↦ elim (Option-cases found) [
                | inl missing ↦ ground arith
                | inr (stored, there) ↦ record {
                  fresh = fresh;
                  free = free;
                  shown = load-new_row r t (ground arith);
                  table = ground arith;
                }
              ]
            ]
          ]
        ]
      ]

  -- A creation that returned found the attempt there, or added it.
  pub create_operation-cases :
      (r : AttemptRecord) (t : AttemptTable) {s : StoredAttempt} {t' : AttemptTable}
      → create_operation rt r t ≡ ok (s, t')
      → Existing r t s t' ⊎ Inserted r t s t'
  unfolding create_operation
  create_operation-cases r t {s} {t'} h = elim (Result-cases (load rt r.attempt_id t)) [
    | inl (e, unread) ↦ ground arith
    | inr (found, loaded) ↦ elim (Option-cases found) [
      | inl missing ↦ inr (
          insert_new-Inserted r t (load-none rt r.attempt_id t (loaded ∙ ap ok missing))
            (ground arith))
      | inr (existing, there) ↦ elim (Bool-cases (same_plan existing.entry.plan r.plan)) [
        | inr other ↦ ground arith
        | inl alike ↦
            let old = load-Shows rt r.attempt_id t (loaded ∙ ap ok there) in
            let same : existing ≡ s = ground arith in
            inl (record {
              row = old.0;
              found = old.1;
              shown = subst (λ x. Shows x old.0) same old.2;
              plan = rw (← same) alike;
              table = ground arith;
            })
      ]
    ]
  ]
