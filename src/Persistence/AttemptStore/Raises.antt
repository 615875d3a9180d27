-- ===== src/Persistence/AttemptStore/Raises.antt =====
-- The attempt store raises its own exception class only, so that its callers' handlers see it.
use nexus_vector_keeperhub.Prelude.{
  ℕ, String, ◌≡◌, ◌⊎◌, inl, inr, arith, Option-cases, Bool-cases, refl, ◌∙◌,
}
use nexus_vector_keeperhub.Errors.{Error, ErrorClass, Result, ok, err, Result-cases, map_err}
use nexus_vector_keeperhub.Clock.{Datetime, require_utc}
use nexus_vector_keeperhub.Runtime.{Runtime}
use nexus_vector_keeperhub.Attempt.{
  AttemptRecord, derive_attempt_id, make_record, transition_execution_attempt,
}
use nexus_vector_keeperhub.Attempt.States.{AttemptState}
use nexus_vector_keeperhub.Persistence.Database.{write, head_fault}
use nexus_vector_keeperhub.Persistence.AttemptStore.{
  AttemptRow, AttemptTable, AttemptDb, decode, load, row_of, rewrite, corrupt, translate,
  update_rows, transition_operation, transition,
}

-- The exception is the store's, once `_write` has translated it.
abbrev IsOwn : Error → Type 0
IsOwn e = (e.class ≡ ErrorClass.attempt) ⊎ (e.class ≡ ErrorClass.attempt_store)

require_utc-class :
    (c : ErrorClass) (t : Datetime) {e : Error} → require_utc c t ≡ err e → e.class ≡ c
unfolding require_utc
require_utc-class c t h = ground arith

corrupt-class : (e : Error) → (corrupt e).class ≡ ErrorClass.attempt_store
unfolding corrupt
corrupt-class e = ground arith

map_err-corrupt-class {ℓ} :
    {A : Type ℓ} (r : Result A) {e : Error}
    → map_err corrupt r ≡ err e
    → e.class ≡ ErrorClass.attempt_store
map_err-corrupt-class (ok a) h = cc
map_err-corrupt-class (err x) h = ground (arith, corrupt-class x)

map_err-translate-class {ℓ} :
    {A : Type ℓ} (r : Result A) {e : Error}
    → ((x : Error) → r ≡ err x → IsOwn x)
    → map_err translate r ≡ err e
    → e.class ≡ ErrorClass.attempt_store
unfolding translate
map_err-translate-class (ok a) own h = cc
map_err-translate-class (err x) own h = ground (arith, own x refl)

module _ (rt : Runtime) where
  make_record-class :
      (r : AttemptRecord) {e : Error} → make_record rt r ≡ err e → e.class ≡ ErrorClass.attempt
  unfolding make_record derive_attempt_id require_utc
  make_record-class r h = ground arith

  transition_execution_attempt-class :
      (r : AttemptRecord) (target : AttemptState) (at : Datetime) {e : Error}
      → transition_execution_attempt rt r target at ≡ err e
      → e.class ≡ ErrorClass.attempt
  unfolding transition_execution_attempt require_utc
  transition_execution_attempt-class r target at {e} h =
      ground (arith, make_record-class (record r { state = target; updated_at_utc = at }) {e = e})

  decode-class :
      (row : AttemptRow) {e : Error} → decode rt row ≡ err e → e.class ≡ ErrorClass.attempt_store
  unfolding decode
  decode-class row h = map_err-corrupt-class _ h

  load-class :
      (id : String) (t : AttemptTable) {e : Error}
      → load rt id t ≡ err e
      → e.class ≡ ErrorClass.attempt_store
  unfolding load
  load-class id t {e} h = elim (Option-cases (row_of id t)) [
    | inl missing ↦ ground arith
    | inr (row, found) ↦ ground (arith, decode-class row {e = e})
  ]

  rewrite-class :
      (id : String) (n : ℕ) (r : AttemptRecord) (t : AttemptTable) {e : Error}
      → rewrite rt id n r t ≡ err e
      → e.class ≡ ErrorClass.attempt_store
  unfolding rewrite require_utc
  rewrite-class id n r t {e} h =
      ground (arith, load-class id (update_rows id n r.state r.updated_at_utc.instant t) {e = e})

  transition_operation-class :
      (id : String) (expected : ℕ) (target : AttemptState) (at : Datetime) (t : AttemptTable)
      (e : Error)
      → transition_operation rt id expected target at t ≡ err e
      → IsOwn e
  unfolding transition_operation
  transition_operation-class id expected target at t e h = elim (Result-cases (load rt id t)) [
    | inl (x, unread) ↦ inr (load-class id t {e = e} (unread ∙ ground arith))
    | inr (found, loaded) ↦ elim (Option-cases found) [
      | inl missing ↦ inr (ground arith)
      | inr (c, there) ↦ elim (Result-cases (transition_execution_attempt rt c.entry target at)) [
        | inl (x, refused) ↦
            ground (arith, transition_execution_attempt-class c.entry target at {e = x} refused)
        | inr (r, done) ↦ ground (arith, rewrite-class id expected r t {e = e})
      ]
    ]
  ]

  pub transition-class :
      (id : String) (expected : ℕ) (target : AttemptState) (at : Datetime) (db : AttemptDb)
      {e : Error}
      → (transition rt id expected target at db).0 ≡ err e
      → e.class ≡ ErrorClass.attempt_store
  unfolding transition write
  transition-class id expected target at db {e} h = elim (Bool-cases (head_fault db.faults)) [
    | inl fault ↦ ground arith
    | inr sound ↦
        map_err-translate-class (transition_operation rt id expected target at db.tables) {e = e}
          (transition_operation-class id expected target at db.tables)
          (elim (Result-cases
            (map_err translate (transition_operation rt id expected target at db.tables))) [
              | inl (x, raised) ↦ ground arith
              | inr (x, returned) ↦ ground arith
            ])
  ]
