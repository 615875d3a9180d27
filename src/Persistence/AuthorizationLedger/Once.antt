-- ===== src/Persistence/AuthorizationLedger/Once.antt =====
-- Runs of the ledger: an approval, and a phase of an attempt, is claimed once and for ever.
use mathlib.Core.Path.{subst}
use nexus_vector_keeperhub.Prelude.{
  String, ◌≡◌, ◌≢◌, sym, ap, ◌∙◌, ◌⊎◌, inl, inr, Bool, true, false, some, List, [], ◌∷◌, ◌==◌,
  arith, eq_iff, eq_refl, Bool-cases,
}
use nexus_vector_keeperhub.Errors.{Error, ErrorClass, ok, err, Result-cases}
use nexus_vector_keeperhub.Clock.{Datetime}
use nexus_vector_keeperhub.Runtime.{Runtime}
use nexus_vector_keeperhub.Persistence.Database.{write-committed}
use nexus_vector_keeperhub.Persistence.AuthorizationLedger.{
  Phase, LedgerState, AuthorizationRecord, LedgerRow, LedgerDb, is_claimed, unchanged, load,
  claim_operation, claim, transition,
}
use nexus_vector_keeperhub.Persistence.AuthorizationLedger.Rows.{
  row_of, used, taken, used-finalise_rows, taken-finalise_rows, row_of-finalise_rows_final,
  load-some,
}
use nexus_vector_keeperhub.Persistence.AuthorizationLedger.Consumed.{
  Claimed, claim_operation-Claimed, claim-keeps, transition-keeps,
}

-- A call of the ledger that writes, or a change of what the database engine does.
pub data Step (rt : Runtime) (db : LedgerDb) : LedgerDb → Type 0 where
  claims : (r : AuthorizationRecord) → Step rt db (claim rt r db).1
  moves :
      (ref : String) (target : LedgerState) (at : Datetime)
      → Step rt db (transition rt ref target at db).1
  outage : (faults : List Bool) → Step rt db (record db { faults = faults })

pub data Reach (rt : Runtime) (db : LedgerDb) : LedgerDb → Type 0 where
  here : Reach rt db db
  next : {t u : LedgerDb} → Reach rt db t → Step rt t u → Reach rt db u

used-row_of :
    (key : String) (t : List LedgerRow) {row : LedgerRow}
    → row_of key t ≡ some row
    → used key t ≡ true
used-row_of key [] h = absurd (ground (arith, h))
used-row_of key (x ∷ t) {row} h = ground (arith, h, used-row_of key t {row = row})

-- A row that a claim adds for another approval does not hide this one.
row_of-claimed :
    (key : String) (row new : LedgerRow) (t : List LedgerRow)
    → row_of key t ≡ some row
    → used new.approval_reference t ≡ false
    → row_of key (new ∷ t) ≡ some row
row_of-claimed key row new t h unused = elim (Bool-cases (new.approval_reference == key)) [
  | inr other ↦ ground (arith, h, other)
  | inl hit ↦
      absurd (ground (arith, unused, used-row_of key t h, eq_iff new.approval_reference key, hit))
]

module _ (rt : Runtime) where
  pub claim-returned :
      (r : AuthorizationRecord) (db : LedgerDb) {s : AuthorizationRecord}
      → (claim rt r db).0 ≡ ok s
      → Claimed rt r db.tables (claim rt r db).1.tables
  unfolding claim
  claim-returned r db {s} h = elim (Bool-cases (is_claimed r.state)) [
    | inr early ↦ absurd (ground (arith, h, early))
    | inl fine ↦ rw fine (
        claim_operation-Claimed rt r db.tables {s = s}
          (write-committed ErrorClass.ledger unchanged (claim_operation rt r) db (rw fine at h)))
  ]

  -- A claim for what has a row raises.
  claim_refused :
      (r : AuthorizationRecord) (db : LedgerDb)
      → (used r.approval_reference db.tables ≡ true) ⊎ (taken r.phase r.attempt_id db.tables ≡ true)
      → (e : Error) × ((claim rt r db).0 ≡ err e)
  claim_refused r db h = elim (Result-cases (claim rt r db).0) [
    | inl refused ↦ refused
    | inr (s, done) ↦
        let c = claim-returned r db done in
        absurd (elim h [
          | inl there ↦ ground (arith, there, c.unused)
          | inr there ↦ ground (arith, there, c.free)
        ])
  ]

  Step-used :
      {db t : LedgerDb} (key : String)
      → used key db.tables ≡ true
      → Step rt db t
      → used key t.tables ≡ true
  Step-used {db} key h (claims r) =
      claim-keeps rt (λ t. used key t ≡ true) r db
        (λ t' c. subst (λ t. used key t ≡ true) (sym c.table) (ground (arith, h))) h
  Step-used {db} key h (moves ref target at) =
      transition-keeps rt (λ t. used key t ≡ true) ref target at db
        (λ k n. used-finalise_rows key k target n db.tables ∙ h) h
  Step-used key h (outage faults) = h

  Step-taken :
      {db t : LedgerDb} (phase : Phase) (id : String)
      → taken phase id db.tables ≡ true
      → Step rt db t
      → taken phase id t.tables ≡ true
  Step-taken {db} phase id h (claims r) =
      claim-keeps rt (λ t. taken phase id t ≡ true) r db
        (λ t' c. subst (λ t. taken phase id t ≡ true) (sym c.table) (ground (arith, h))) h
  Step-taken {db} phase id h (moves ref target at) =
      transition-keeps rt (λ t. taken phase id t ≡ true) ref target at db
        (λ k n. taken-finalise_rows phase id k target n db.tables ∙ h) h
  Step-taken phase id h (outage faults) = h

  Reach-used :
      {db t : LedgerDb} (key : String)
      → used key db.tables ≡ true
      → Reach rt db t
      → used key t.tables ≡ true
  Reach-used key h here = h
  Reach-used key h (next run step) = Step-used key (Reach-used key h run) step

  Reach-taken :
      {db t : LedgerDb} (phase : Phase) (id : String)
      → taken phase id db.tables ≡ true
      → Reach rt db t
      → taken phase id t.tables ≡ true
  Reach-taken phase id h here = h
  Reach-taken phase id h (next run step) = Step-taken phase id (Reach-taken phase id h run) step

  pub Claimed-row :
      (r : AuthorizationRecord) {t t' : List LedgerRow}
      → Claimed rt r t t'
      → (used r.approval_reference t' ≡ true) × (taken r.phase r.attempt_id t' ≡ true)
  Claimed-row r c = (
    subst (λ t. used r.approval_reference t ≡ true) (sym c.table)
        (ground (arith, c.approval_reference, eq_refl c.row.approval_reference)),
    subst (λ t. taken r.phase r.attempt_id t ≡ true) (sym c.table)
        (ground (arith, c.phase, c.attempt_id, eq_refl c.row.attempt_id)),
  )

  -- After a claim that returned, whatever claims, transitions and outages follow, every claim of the
  -- same approval, and every claim of the same phase of the same attempt, raises.
  pub claim_consumes :
      (db : LedgerDb) {t : LedgerDb} (r s : AuthorizationRecord) {stored : AuthorizationRecord}
      → (claim rt r db).0 ≡ ok stored
      → Reach rt (claim rt r db).1 t
      → (s.approval_reference ≡ r.approval_reference)
        ⊎ ((s.phase ≡ r.phase) × (s.attempt_id ≡ r.attempt_id))
      → (e : Error) × ((claim rt s t).0 ≡ err e)
  claim_consumes db {t} r s returned run same =
      let there = Claimed-row r (claim-returned r db returned) in
      claim_refused s t (elim same [
        | inl one_reference ↦ inl (
            subst (λ key. used key t.tables ≡ true) (sym one_reference)
              (Reach-used r.approval_reference there.0 run))
        | inr (one_phase, one_attempt) ↦ inr (
            subst (λ id. taken s.phase id t.tables ≡ true) (sym one_attempt)
              (subst (λ p. taken p r.attempt_id t.tables ≡ true) (sym one_phase)
                (Reach-taken r.phase r.attempt_id there.1 run)))
      ])

  Step-final :
      {db t : LedgerDb} (key : String) (row : LedgerRow)
      → is_claimed row.state ≡ false
      → row_of key db.tables ≡ some row
      → Step rt db t
      → row_of key t.tables ≡ some row
  Step-final {db} key row final h (claims r) =
      claim-keeps rt (λ t. row_of key t ≡ some row) r db
        (λ t' c.
          subst (λ t. row_of key t ≡ some row) (sym c.table)
            (row_of-claimed key row c.row db.tables h
              (ap (λ k. used k db.tables) c.approval_reference ∙ c.unused)))
        h
  Step-final {db} key row final h (moves ref target at) =
      transition-keeps rt (λ t. row_of key t ≡ some row) ref target at db
        (λ k n. row_of-finalise_rows_final key k target n db.tables h final) h
  Step-final key row final h (outage faults) = h

  Reach-final :
      {db t : LedgerDb} (key : String) (row : LedgerRow)
      → is_claimed row.state ≡ false
      → row_of key db.tables ≡ some row
      → Reach rt db t
      → row_of key t.tables ≡ some row
  Reach-final key row final h here = h
  Reach-final key row final h (next run step) =
      Step-final key row final (Reach-final key row final h run) step

  -- A record that is not CLAIMED any more is never changed: every later read of the table finds it as
  -- it is.
  pub load_final :
      {db t : LedgerDb} (ref : String) (r : AuthorizationRecord)
      → load rt ref db.tables ≡ ok (some r)
      → r.state ≢ LedgerState.claimed
      → Reach rt db t
      → load rt ref t.tables ≡ ok (some r)
  unfolding load
  load_final {db} {t} ref r loaded final run =
      let (row, found, same) = load-some rt ref db.tables loaded in
      let closed : is_claimed row.state ≡ false =
        ground (arith, final, ap (λ (x : AuthorizationRecord). x.state) same) in
      let kept = Reach-final ref row closed found run in ground (arith, loaded, found, kept)
