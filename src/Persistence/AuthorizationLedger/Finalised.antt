-- ===== src/Persistence/AuthorizationLedger/Finalised.antt =====
-- What a transition of an approval does, and what a claim leaves to be read.
use mathlib.Core.Path.{subst}
use nexus_vector_keeperhub.Prelude.{
  ℕ, String, ◌≡◌, sym, ap, ◌∙◌, inl, inr, true, none, some, List, ◌≤◌, arith, ltb, nat_eq,
  Bool-cases,
}
use nexus_vector_keeperhub.Errors.{ErrorClass, Code, ok, Result-cases}
use nexus_vector_keeperhub.Clock.{Datetime, utc, require_utc-cases}
use nexus_vector_keeperhub.Runtime.{Runtime}
use nexus_vector_keeperhub.Plain.{plain_text}
use nexus_vector_keeperhub.Persistence.Database.{write-committed}
use nexus_vector_keeperhub.Persistence.AuthorizationLedger.{
  LedgerState, AuthorizationRecord, LedgerRow, LedgerDb, is_claimed, allowed_final, unchanged,
  open_rows, finalise_rows, load, check_final, transition_operation, transition, ledger_text,
}
use nexus_vector_keeperhub.Persistence.AuthorizationLedger.Rows.{
  row_of-finalise_rows, shown_by, load-some,
}

-- What a transition that returns `s` did to the record of the approval.
pub record IsFinalised (rt : Runtime) (ref : String) (target : LedgerState) (at : Datetime)
    (t : List LedgerRow) (s : AuthorizationRecord) (t' : List LedgerRow) : Type 0 where
  pub before : AuthorizationRecord
  pub loaded : load rt ref t ≡ ok (some before)
  pub open_before : before.state ≡ LedgerState.claimed
  pub permitted : allowed_final before.phase target ≡ true
  pub forward : before.updated_at_utc.instant ≤ at.instant
  pub after : s ≡ record before { state = target; updated_at_utc = utc at.instant }
  pub stored : load rt ref t' ≡ ok (some s)

is_claimed→≡ : (s : LedgerState) → is_claimed s ≡ true → s ≡ LedgerState.claimed
is_claimed→≡ s h = ground arith

module _ (rt : Runtime) where
  plain_text-same :
      (c : ErrorClass) (v : String) (k : Code) {u : String} → plain_text rt c v k ≡ ok u → u ≡ v
  unfolding plain_text
  plain_text-same c v k h = ground arith

  -- The record that is read back after the update.
  reread :
      (ref : String) (target : LedgerState) (at : ℕ) (t : List LedgerRow)
      {old new : AuthorizationRecord}
      → load rt ref t ≡ ok (some old)
      → old.state ≡ LedgerState.claimed
      → load rt ref (finalise_rows ref target at t) ≡ ok (some new)
      → new ≡ record old { state = target; updated_at_utc = utc at }
  reread ref target at t {old} {new} loaded fresh again =
      let (row, found, shown) = load-some rt ref t loaded in
      let (row', found', shown') = load-some rt ref (finalise_rows ref target at t) again in
      let claimed : is_claimed row.state ≡ true =
        ground (arith, fresh, ap (λ (r : AuthorizationRecord). r.state) shown) in
      let moved = row_of-finalise_rows ref target at t found claimed in
      let same : row' ≡ record row { state = target; updated_at = at } =
        ground (arith, found', moved) in
      shown'
      ∙ ap shown_by same
      ∙ ap (λ (r : AuthorizationRecord). record r { state = target; updated_at_utc = utc at })
          (sym shown)

  transition_operation-IsFinalised :
      (ref : String) (target : LedgerState) (at : Datetime) (t : List LedgerRow)
      {s : AuthorizationRecord} {t' : List LedgerRow}
      → transition_operation rt ref target at.instant t ≡ ok (s, t')
      → IsFinalised rt ref target at t s t'
  unfolding transition_operation check_final
  transition_operation-IsFinalised ref target at t {s} {t'} h =
      elim (Result-cases (load rt ref t)) [
        | inl (e, bad) ↦ absurd (ground (arith, h, bad))
        | inr (none, missing) ↦ absurd (ground (arith, h, missing))
        | inr (some old, loaded) ↦ elim (Bool-cases (is_claimed old.state)) [
          | inr final ↦ absurd (ground (arith, h, loaded, final))
          | inl fresh ↦ elim (Bool-cases (allowed_final old.phase target)) [
            | inr never ↦ absurd (ground (arith, h, loaded, fresh, never))
            | inl permitted ↦ elim (Bool-cases (ltb at.instant old.updated_at_utc.instant)) [
              | inl back ↦ absurd (ground (arith, h, loaded, fresh, permitted, back))
              | inr forward ↦ elim (Bool-cases (nat_eq (open_rows ref t) 1)) [
                | inr stale ↦ absurd (ground (arith, h, loaded, fresh, permitted, forward, stale))
                | inl one ↦
                    elim (Result-cases (load rt ref (finalise_rows ref target at.instant t))) [
                      | inl (e, bad) ↦
                          absurd (ground (arith, h, loaded, fresh, permitted, forward, one, bad))
                      | inr (none, lost) ↦
                          absurd (ground (arith, h, loaded, fresh, permitted, forward, one, lost))
                      | inr (some x, again) ↦
                          let same : s ≡ x =
                            ground (arith, h, loaded, fresh, permitted, forward, one, again) in
                          let table : t' ≡ finalise_rows ref target at.instant t =
                            ground (arith, h, loaded, fresh, permitted, forward, one, again) in
                          let claimed = is_claimed→≡ old.state fresh in
                          record {
                            before = old;
                            loaded = loaded;
                            open_before = claimed;
                            permitted = permitted;
                            forward = ground (arith, forward);
                            after = same ∙ reread ref target at.instant t loaded claimed again;
                            stored = rw (table, same) again;
                          }
                    ]
              ]
            ]
          ]
        ]
      ]

  -- A transition of an approval that returns found it CLAIMED, under its own reference; the table of
  -- its phase permits the new state; time did not go back; and the record with the new state and
  -- time, and nothing else changed, is returned and is the one that is read from then on.
  pub transition-IsFinalised :
      (ref : String) (target : LedgerState) (at : Datetime) (db : LedgerDb)
      (s : AuthorizationRecord)
      → (transition rt ref target at db).0 ≡ ok s
      → IsFinalised rt ref target at db.tables s (transition rt ref target at db).1.tables
  unfolding transition
  transition-IsFinalised ref target at db s h =
      elim (Result-cases (ledger_text rt ref Code.invalid_approval_reference)) [
        | inl (e, bad) ↦ absurd (ground (arith, h, bad))
        | inr (key, good) ↦ elim (require_utc-cases ErrorClass.ledger at) [
          | inr (e, bad) ↦ absurd (ground (arith, h, good, bad))
          | inl timely ↦
              let same : key ≡ ref =
                plain_text-same ErrorClass.ledger ref Code.invalid_approval_reference good in
              subst
                (λ k.
                  IsFinalised rt k target at db.tables s (transition rt ref target at db).1.tables)
                same
                (rw (good, timely)
                  (transition_operation-IsFinalised key target at db.tables (
                    write-committed ErrorClass.ledger unchanged
                      (transition_operation rt key target at.instant) db (rw (good, timely) at h))))
        ]
      ]
