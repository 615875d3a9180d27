-- ===== src/Persistence/AuthorizationLedger/Rows.antt =====
-- What the operations of the ledger do to the rows of its table.
use mathlib.Core.Path.{subst}
use nexus_vector_keeperhub.Prelude.{
  ℕ, String, ◌≡◌, ◌≢◌, refl, ap, inl, inr, Bool, true, false, ◌&&◌, Option, none, some, List, [],
  ◌∷◌, ◌==◌, arith, any, find, Bool-cases,
}
use nexus_vector_keeperhub.Errors.{ok, Result-cases}
use nexus_vector_keeperhub.Clock.{utc}
use nexus_vector_keeperhub.Runtime.{Runtime}
use nexus_vector_keeperhub.Persistence.AuthorizationLedger.{
  Phase, LedgerState, AuthorizationRecord, LedgerRow, same_phase, is_claimed, finalise_rows,
  make_authorization, decode, load, load_for_attempt,
}

-- The row of an approval; the test of the row for a phase of an attempt.
abbrev pub row_of : String → List LedgerRow → Option LedgerRow
row_of ref = find (λ (row : LedgerRow). row.approval_reference == ref)

abbrev pub is_for : Phase → String → LedgerRow → Bool
is_for phase id row = same_phase row.phase phase && row.attempt_id == id

-- An approval, or a phase of an attempt, has a row.
abbrev pub used : String → List LedgerRow → Bool
used ref = any (λ (row : LedgerRow). row.approval_reference == ref)

abbrev pub taken : Phase → String → List LedgerRow → Bool
taken phase id = any (is_for phase id)

pub used-finalise_rows :
    (key ref : String) (target : LedgerState) (at : ℕ) (t : List LedgerRow)
    → used key (finalise_rows ref target at t) ≡ used key t
unfolding finalise_rows
used-finalise_rows key ref target at [] = refl
used-finalise_rows key ref target at (row ∷ t) =
    ground (arith, used-finalise_rows key ref target at t)

pub taken-finalise_rows :
    (phase : Phase) (id ref : String) (target : LedgerState) (at : ℕ) (t : List LedgerRow)
    → taken phase id (finalise_rows ref target at t) ≡ taken phase id t
unfolding finalise_rows
taken-finalise_rows phase id ref target at [] = refl
taken-finalise_rows phase id ref target at (row ∷ t) =
    ground (arith, taken-finalise_rows phase id ref target at t)

-- A row that is final is not rewritten.
pub row_of-finalise_rows_final :
    (key ref : String) (target : LedgerState) (at : ℕ) (t : List LedgerRow) {row : LedgerRow}
    → row_of key t ≡ some row
    → is_claimed row.state ≡ false
    → row_of key (finalise_rows ref target at t) ≡ some row
unfolding finalise_rows
row_of-finalise_rows_final key ref target at [] h final = absurd (ground (arith, h))
row_of-finalise_rows_final key ref target at (x ∷ t) {row} h final =
    elim (Bool-cases (x.approval_reference == key)) [
      | inl hit ↦
          let same : x ≡ row = ground (arith, h, hit) in
          ground (arith, h, hit, final, ap (λ (r : LedgerRow). r.state) same)
      | inr other ↦
          ground (arith, h, other, row_of-finalise_rows_final key ref target at t {row = row})
    ]

pub row_of-finalise_rows :
    (ref : String) (target : LedgerState) (at : ℕ) (t : List LedgerRow) {row : LedgerRow}
    → row_of ref t ≡ some row
    → is_claimed row.state ≡ true
    → row_of ref (finalise_rows ref target at t)
      ≡ some (record row { state = target; updated_at = at })
unfolding finalise_rows
row_of-finalise_rows ref target at [] h claimed = absurd (ground (arith, h))
row_of-finalise_rows ref target at (x ∷ t) {row} h claimed =
    elim (Bool-cases (x.approval_reference == ref)) [
      | inl hit ↦
          let same : x ≡ row = ground (arith, h, hit) in
          subst
            (λ (r : LedgerRow).
              row_of ref (finalise_rows ref target at (x ∷ t))
              ≡ some (record r { state = target; updated_at = at }))
            same (ground (arith, hit, claimed, ap (λ (r : LedgerRow). r.state) same))
      | inr other ↦ ground (arith, h, other, row_of-finalise_rows ref target at t {row = row})
    ]

-- What is not found does not stand in the table.
find-any : (p : LedgerRow → Bool) (t : List LedgerRow) → any p t ≡ true → find p t ≢ none
find-any p [] h bad = ground (arith, h)
find-any p (x ∷ t) h bad = ground (arith, h, bad, find-any p t)

-- The record that a row decodes to.
abbrev pub shown_by : LedgerRow → AuthorizationRecord
shown_by row = record {
  approval_reference = row.approval_reference;
  phase = row.phase;
  action_sheet_id = row.action_sheet_id;
  attempt_id = row.attempt_id;
  request_fingerprint = row.request_fingerprint;
  body_fingerprint = row.body_fingerprint;
  state = row.state;
  claimed_at_utc = utc row.claimed_at;
  updated_at_utc = utc row.updated_at;
}

module _ (rt : Runtime) where
  pub make_authorization-same :
      (r : AuthorizationRecord) {s : AuthorizationRecord} → make_authorization rt r ≡ ok s → s ≡ r
  unfolding make_authorization
  make_authorization-same r h = ground arith

  decode-none : (o : Option LedgerRow) → decode rt o ≡ ok none → o ≡ none
  decode-none none h = refl
  decode-none (some row) h = elim (Result-cases (make_authorization rt (shown_by row))) [
    | inl (e, bad) ↦ absurd (ground (arith, h, bad))
    | inr (r, made) ↦ absurd (ground (arith, h, made))
  ]

  decode-some :
      (o : Option LedgerRow) {r : AuthorizationRecord}
      → decode rt o ≡ ok (some r)
      → (row : LedgerRow) × (o ≡ some row) × (r ≡ shown_by row)
  decode-some none h = absurd (ground (arith, h))
  decode-some (some row) {r} h = elim (Result-cases (make_authorization rt (shown_by row))) [
    | inl (e, bad) ↦ absurd (ground (arith, h, bad))
    | inr (s, made) ↦
        (row, refl, ground (arith, h, made, make_authorization-same (shown_by row) made))
  ]

  pub load-some :
      (ref : String) (t : List LedgerRow) {r : AuthorizationRecord}
      → load rt ref t ≡ ok (some r)
      → (row : LedgerRow) × (row_of ref t ≡ some row) × (r ≡ shown_by row)
  unfolding load
  load-some ref t {r} h = decode-some (row_of ref t) {r = r} h

  pub load-free : (ref : String) (t : List LedgerRow) → load rt ref t ≡ ok none → used ref t ≡ false
  unfolding load
  load-free ref t h = elim (Bool-cases (used ref t)) [
    | inr free ↦ free
    | inl there ↦ absurd (
        find-any (λ (row : LedgerRow). row.approval_reference == ref) t there
          (decode-none (row_of ref t) h))
  ]

  pub load_for_attempt-free :
      (phase : Phase) (id : String) (t : List LedgerRow)
      → load_for_attempt rt phase id t ≡ ok none
      → taken phase id t ≡ false
  unfolding load_for_attempt
  load_for_attempt-free phase id t h = elim (Bool-cases (taken phase id t)) [
    | inr free ↦ free
    | inl there ↦
        absurd (find-any (is_for phase id) t there (decode-none (find (is_for phase id) t) h))
  ]
