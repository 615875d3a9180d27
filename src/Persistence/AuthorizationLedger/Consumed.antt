-- ===== src/Persistence/AuthorizationLedger/Consumed.antt =====
-- An approval is consumed once, and what is final stays final: over any calls of the ledger, by any
-- processes, in any order, with outages of the database between them.
use mathlib.Core.Path.{subst}
use nexus_vector_keeperhub.Prelude.{
  ℕ, String, ◌≡◌, refl, sym, inl, inr, false, none, some, List, ◌∷◌, arith, nat_eq, Bool-cases,
}
use nexus_vector_keeperhub.Errors.{ErrorClass, Code, ok, Result-cases}
use nexus_vector_keeperhub.Clock.{Datetime, require_utc-cases}
use nexus_vector_keeperhub.Runtime.{Runtime}
use nexus_vector_keeperhub.Persistence.Database.{write-keeps}
use nexus_vector_keeperhub.Persistence.AuthorizationLedger.{
  LedgerState, AuthorizationRecord, LedgerRow, LedgerDb, is_claimed, unchanged, open_rows,
  finalise_rows, load, load_for_attempt, claim_operation, claim, check_final, transition_operation,
  transition, ledger_text,
}
use nexus_vector_keeperhub.Persistence.AuthorizationLedger.Rows.{
  used, taken, load-free, load_for_attempt-free,
}

-- What a claim that returns has done.
pub record Claimed (rt : Runtime) (r : AuthorizationRecord) (t t' : List LedgerRow) : Type 0 where
  pub row : LedgerRow
  pub table : t' ≡ row ∷ t
  pub approval_reference : row.approval_reference ≡ r.approval_reference
  pub phase : row.phase ≡ r.phase
  pub attempt_id : row.attempt_id ≡ r.attempt_id
  pub state : row.state ≡ r.state
  pub unused : used r.approval_reference t ≡ false
  pub free : taken r.phase r.attempt_id t ≡ false

-- What a transition that returns has done to the table.
pub record Rewritten (ref : String) (t t' : List LedgerRow) : Type 0 where
  pub target : LedgerState
  pub at : ℕ
  pub table : t' ≡ finalise_rows ref target at t

module _ (rt : Runtime) where
  pub claim_operation-Claimed :
      (r : AuthorizationRecord) (t : List LedgerRow) {s : AuthorizationRecord} {t' : List LedgerRow}
      → claim_operation rt r t ≡ ok (s, t')
      → Claimed rt r t t'
  unfolding claim_operation
  claim_operation-Claimed r t {s} {t'} h = elim (Result-cases (load rt r.approval_reference t)) [
    | inl (e, bad) ↦ absurd (ground (arith, h, bad))
    | inr (some x, there) ↦ elim (Result-cases (load_for_attempt rt r.phase r.attempt_id t)) [
      | inl (e, bad) ↦ absurd (ground (arith, h, there, bad))
      | inr (y, other) ↦ absurd (ground (arith, h, there, other))
    ]
    | inr (none, unused) ↦ elim (Result-cases (load_for_attempt rt r.phase r.attempt_id t)) [
      | inl (e, bad) ↦ absurd (ground (arith, h, unused, bad))
      | inr (some y, there) ↦ absurd (ground (arith, h, unused, there))
      | inr (none, free) ↦ elim (require_utc-cases ErrorClass.ledger r.claimed_at_utc) [
        | inr (e, bad) ↦ absurd (ground (arith, h, unused, free, bad))
        | inl early ↦ elim (require_utc-cases ErrorClass.ledger r.updated_at_utc) [
          | inr (e, bad) ↦ absurd (ground (arith, h, unused, free, early, bad))
          | inl late ↦
              let row : LedgerRow = record {
                approval_reference = r.approval_reference;
                phase = r.phase;
                action_sheet_id = r.action_sheet_id;
                attempt_id = r.attempt_id;
                request_fingerprint = r.request_fingerprint;
                body_fingerprint = r.body_fingerprint;
                state = r.state;
                claimed_at = r.claimed_at_utc.instant;
                updated_at = r.updated_at_utc.instant;
              } in
              elim (Result-cases (load rt r.approval_reference (row ∷ t))) [
                | inl (e, bad) ↦ absurd (ground (arith, h, unused, free, early, late, bad))
                | inr (none, lost) ↦ absurd (ground (arith, h, unused, free, early, late, lost))
                | inr (some x, loaded) ↦ record {
                  row = row;
                  table = ground (arith, h, unused, free, early, late, loaded);
                  approval_reference = refl;
                  phase = refl;
                  attempt_id = refl;
                  state = refl;
                  unused = load-free rt r.approval_reference t unused;
                  free = load_for_attempt-free rt r.phase r.attempt_id t free;
                }
              ]
        ]
      ]
    ]
  ]

  pub transition_operation-Rewritten :
      (ref : String) (target : LedgerState) (at : ℕ) (t : List LedgerRow) {s : AuthorizationRecord}
      {t' : List LedgerRow}
      → transition_operation rt ref target at t ≡ ok (s, t')
      → t' ≡ finalise_rows ref target at t
  unfolding transition_operation
  transition_operation-Rewritten ref target at t {s} {t'} h = elim (Result-cases (load rt ref t)) [
    | inl (e, bad) ↦ absurd (ground (arith, h, bad))
    | inr (found, loaded) ↦ elim (Result-cases (check_final found target at)) [
      | inl (e, bad) ↦ absurd (ground (arith, h, loaded, bad))
      | inr (current, good) ↦ elim (Bool-cases (nat_eq (open_rows ref t) 1)) [
        | inr stale ↦ absurd (ground (arith, h, loaded, good, stale))
        | inl one ↦ elim (Result-cases (load rt ref (finalise_rows ref target at t))) [
          | inl (e, bad) ↦ absurd (ground (arith, h, loaded, good, one, bad))
          | inr (none, lost) ↦ absurd (ground (arith, h, loaded, good, one, lost))
          | inr (some x, again) ↦ ground (arith, h, loaded, good, one, again)
        ]
      ]
    ]
  ]

  -- What every claim and every transition keeps, holds after a call of either.
  pub claim-keeps {κ} :
      (Q : List LedgerRow → Type κ) (r : AuthorizationRecord) (db : LedgerDb)
      → ((t' : List LedgerRow) → Claimed rt r db.tables t' → Q t')
      → Q db.tables
      → Q (claim rt r db).1.tables
  unfolding claim
  claim-keeps Q r db step old = elim (Bool-cases (is_claimed r.state)) [
    | inr early ↦ rw early old
    | inl fine ↦ rw fine (
        write-keeps Q ErrorClass.ledger unchanged (claim_operation rt r) db
          (λ s t' done. step t' (claim_operation-Claimed r db.tables {s = s} {t' = t'} done)) old)
  ]

  pub transition-keeps {κ} :
      (Q : List LedgerRow → Type κ) (ref : String) (target : LedgerState) (at : Datetime)
      (db : LedgerDb)
      → ((key : String) (n : ℕ) → Q (finalise_rows key target n db.tables))
      → Q db.tables
      → Q (transition rt ref target at db).1.tables
  unfolding transition
  transition-keeps Q ref target at db step old =
      elim (Result-cases (ledger_text rt ref Code.invalid_approval_reference)) [
        | inl (e, bad) ↦ rw bad old
        | inr (key, good) ↦ elim (require_utc-cases ErrorClass.ledger at) [
          | inr (e, bad) ↦ rw (good, bad) old
          | inl timely ↦
              rw (good, timely)
                (write-keeps Q ErrorClass.ledger unchanged
                  (transition_operation rt key target at.instant) db
                  (λ s t' done.
                    subst Q
                      (sym (
                        transition_operation-Rewritten key target at.instant db.tables {s = s}
                          {t' = t'} done))
                      (step key at.instant))
                  old)
        ]
      ]
