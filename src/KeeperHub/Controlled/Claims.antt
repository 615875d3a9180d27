-- ===== src/KeeperHub/Controlled/Claims.antt =====
-- What each part of a simulation or a broadcast does to the ledger and to the list of calls.
use mathlib.Core.Path.{subst}
use nexus_vector_keeperhub.Prelude.{
  String, ◌≡◌, refl, sym, ap, ◌∙◌, inl, inr, true, false, none, some, arith, Bool-cases,
}
use nexus_vector_keeperhub.Errors.{ErrorClass, Code, ok, Result-cases}
use nexus_vector_keeperhub.Calls.{Call}
use nexus_vector_keeperhub.Clock.{Datetime}
use nexus_vector_keeperhub.Runtime.{Runtime}
use nexus_vector_keeperhub.Attempt.{AttemptPlan, create_initial_execution_attempt}
use nexus_vector_keeperhub.Persistence.Database.{write, read-tables}
use nexus_vector_keeperhub.Attempt.States.{AttemptState, same}
use nexus_vector_keeperhub.Persistence.AttemptStore.{
  AttemptDb, create, initialize as initialize_attempts,
}
use nexus_vector_keeperhub.KeeperHub.Approvals.{approval_text}
use nexus_vector_keeperhub.Persistence.AuthorizationLedger.{
  Phase, LedgerState, AuthorizationRecord, LedgerDb, make_authorization, claim, transition, get,
  initialize, load, ledger_text,
}
use nexus_vector_keeperhub.Persistence.AuthorizationLedger.Rows.{
  taken, taken-finalise_rows, make_authorization-same,
}
use nexus_vector_keeperhub.Persistence.AuthorizationLedger.Consumed.{claim-keeps, transition-keeps}
use nexus_vector_keeperhub.Persistence.AuthorizationLedger.Once.{claim-returned, Claimed-row}
use nexus_vector_keeperhub.KeeperHub.Controlled.{
  Controls, on_ledger, on_journal, finalize_best_effort, claim_approval, load_receipt, give_up,
  prepare_attempt,
}

-- A call that made no call of the transport and took no claim back.
pub record Grows {Q : Type 0} (s t : Controls Q) : Type 0 where
  pub posts : t.posts ≡ s.posts
  pub claims :
      (phase : Phase) (id : String)
      → taken phase id s.ledger.tables ≡ true
      → taken phase id t.ledger.tables ≡ true

module _ {Q : Type 0} where
  pub Grows-refl : (s : Controls Q) → Grows s s
  Grows-refl s = record { posts = refl; claims = λ phase id h. h }

  pub Grows-then : (s t u : Controls Q) → Grows s t → Grows t u → Grows s u
  Grows-then s t u a b = record {
    posts = b.posts ∙ a.posts;
    claims = λ phase id h. b.claims phase id (a.claims phase id h);
  }

  -- A call of the ledger that keeps the claims in its table.
  pub on_ledger-Grows :
      {A : Type 0} (m : Call LedgerDb A)
      → ((db : LedgerDb) (phase : Phase) (id : String)
          → taken phase id db.tables ≡ true
          → taken phase id (m db).1.tables ≡ true)
      → (s : Controls Q) → Grows s (on_ledger m s).1
  on_ledger-Grows m keeps s = record { posts = refl; claims = keeps s.ledger }

  pub on_journal-Grows :
      {A : Type 0} (m : Call AttemptDb A) (s : Controls Q) → Grows s (on_journal m s).1
  on_journal-Grows m s = record { posts = refl; claims = λ phase id h. h }

initialize-tables : (db : LedgerDb) → (initialize db).1.tables ≡ db.tables
unfolding initialize write
initialize-tables db = ground arith

pub initialize-claims :
    (db : LedgerDb) (phase : Phase) (id : String)
    → taken phase id db.tables ≡ true
    → taken phase id (initialize db).1.tables ≡ true
initialize-claims db phase id h = ap (taken phase id) (initialize-tables db) ∙ h

module _ (rt : Runtime) where
  get-tables : (ref : String) (db : LedgerDb) → (get rt ref db).1.tables ≡ db.tables
  unfolding get
  get-tables ref db = elim (Result-cases (ledger_text rt ref Code.invalid_approval_reference)) [
    | inl (e, bad) ↦ rw bad refl
    | inr (key, good) ↦ rw good (read-tables ErrorClass.ledger (load rt key) db)
  ]

  pub transition-claims :
      (ref : String) (target : LedgerState) (at : Datetime) (db : LedgerDb) (phase : Phase)
      (id : String)
      → taken phase id db.tables ≡ true
      → taken phase id (transition rt ref target at db).1.tables ≡ true
  transition-claims ref target at db phase id h =
      transition-keeps rt (λ t. taken phase id t ≡ true) ref target at db
        (λ k n. taken-finalise_rows phase id k target n db.tables ∙ h) h

  pub claim-claims :
      (r : AuthorizationRecord) (db : LedgerDb) (phase : Phase) (id : String)
      → taken phase id db.tables ≡ true
      → taken phase id (claim rt r db).1.tables ≡ true
  claim-claims r db phase id h =
      claim-keeps rt (λ t. taken phase id t ≡ true) r db
        (λ t' c. subst (λ t. taken phase id t ≡ true) (sym c.table) (ground (arith, h))) h

  module _ {Q : Type 0} where
    pub finalize-Grows :
        (ref : String) (target : LedgerState) (at : Datetime) (s : Controls Q)
        → Grows s (finalize_best_effort rt ref target at s).1
    unfolding finalize_best_effort
    finalize-Grows ref target at s = record {
      posts = refl;
      claims = transition-claims ref target at s.ledger;
    }

    pub give_up-Grows :
        (A : Type 0) (ref : String) (at : Datetime) (c : Code) (s : Controls Q)
        → Grows s (give_up rt {A = A} ref at c s).1
    unfolding give_up
    give_up-Grows A ref at c s =
        let kept = finalize-Grows ref LedgerState.outcome_unknown at s in
        elim (Result-cases (finalize_best_effort rt ref LedgerState.outcome_unknown at s).0) [
          | inl (e, bad) ↦ rw (give_up, bad) kept
          | inr (b, done) ↦ rw (give_up, done) kept
        ]

    load_receipt-posts : (ref : String) (s : Controls Q) → (load_receipt rt ref s).1.posts ≡ s.posts
    unfolding load_receipt
    load_receipt-posts ref s = elim (Result-cases (initialize s.ledger).0) [
      | inl (e, bad) ↦ rw bad refl
      | inr (x, started) ↦
          elim (Result-cases (approval_text rt ref Code.invalid_simulation_approval)) [
            | inl (e, bad) ↦ rw (started, bad) refl
            | inr (key, good) ↦ elim (Result-cases (get rt key (initialize s.ledger).1).0) [
              | inl (e, bad) ↦ rw (started, good, bad) refl
              | inr (none, missing) ↦ rw (started, good, missing) refl
              | inr (some r, found) ↦ rw (started, good, found) refl
            ]
          ]
    ]

    load_receipt-tables :
        (ref : String) (s : Controls Q) → (load_receipt rt ref s).1.ledger.tables ≡ s.ledger.tables
    unfolding load_receipt
    load_receipt-tables ref s =
        let db = (initialize s.ledger).1 in
        let same = initialize-tables s.ledger in
        elim (Result-cases (initialize s.ledger).0) [
          | inl (e, bad) ↦ rw bad same
          | inr (x, started) ↦
              elim (Result-cases (approval_text rt ref Code.invalid_simulation_approval)) [
                | inl (e, bad) ↦ rw (started, bad) same
                | inr (key, good) ↦ elim (Result-cases (get rt key db).0) [
                  | inl (e, bad) ↦ rw (started, good, bad) (get-tables key db ∙ same)
                  | inr (none, missing) ↦ rw (started, good, missing) (get-tables key db ∙ same)
                  | inr (some r, found) ↦ rw (started, good, found) (get-tables key db ∙ same)
                ]
              ]
        ]

    pub load_receipt-Grows : (ref : String) (s : Controls Q) → Grows s (load_receipt rt ref s).1
    load_receipt-Grows ref s = record {
      posts = load_receipt-posts ref s;
      claims = λ phase id h. ap (taken phase id) (load_receipt-tables ref s) ∙ h;
    }

    -- Preparing an attempt leaves the ledger alone.
    pub prepare_attempt-Grows :
        (plan : AttemptPlan) (at : Datetime) (s : Controls Q)
        → Grows s (prepare_attempt rt plan at s).1
    unfolding prepare_attempt
    prepare_attempt-Grows plan at s =
        let here : (db : AttemptDb) → Grows s (record s { attempts = db }) =
          λ db. record { posts = refl; claims = λ phase id h. h } in
        elim (Result-cases (initialize_attempts s.attempts).0) [
          | inl (e, bad) ↦ rw bad (here _)
          | inr (x, started) ↦ elim (Result-cases (create_initial_execution_attempt rt plan at)) [
            | inl (e, bad) ↦ rw (started, bad) (here _)
            | inr (r, initial) ↦
                elim (Result-cases (create rt r (initialize_attempts s.attempts).1).0) [
                  | inl (e, bad) ↦ rw (started, initial, bad) (here _)
                  | inr (a, prepared) ↦
                      elim (Bool-cases (same a.entry.state AttemptState.prepared)) [
                        | inl fresh ↦ rw (started, initial, prepared, fresh) (here _)
                        | inr old ↦ rw (started, initial, prepared, old) (here _)
                      ]
                ]
          ]
        ]

    pub claim_approval-Grows :
        (r : AuthorizationRecord) (s : Controls Q) → Grows s (claim_approval rt r s).1
    unfolding claim_approval
    claim_approval-Grows r s = elim (Result-cases (make_authorization rt r)) [
      | inl (e, bad) ↦ rw bad (Grows-refl s)
      | inr (made, good) ↦ rw good (on_ledger-Grows (claim rt made) (claim-claims made) s)
    ]

    -- A claim that returns: the phase of the attempt was free, and is taken.
    pub claim_approval-taken :
        (r : AuthorizationRecord) (s : Controls Q) {x : AuthorizationRecord}
        → (claim_approval rt r s).0 ≡ ok x
        → (taken r.phase r.attempt_id s.ledger.tables ≡ false)
          × (taken r.phase r.attempt_id (claim_approval rt r s).1.ledger.tables ≡ true)
    unfolding claim_approval
    claim_approval-taken r s {x} h = elim (Result-cases (make_authorization rt r)) [
      | inl (e, bad) ↦ absurd (ground (arith, h, bad))
      | inr (made, good) ↦ elim (Result-cases (claim rt made s.ledger).0) [
        | inl (e, bad) ↦ absurd (ground (arith, h, good, bad))
        | inr (y, claimed) ↦
            let same : made ≡ r = make_authorization-same rt r good in
            let c = claim-returned rt made s.ledger claimed in
            rw good (
              subst
                  (λ (q : AuthorizationRecord). taken q.phase q.attempt_id s.ledger.tables ≡ false)
                  same c.free,
              subst
                  (λ (q : AuthorizationRecord).
                    taken q.phase q.attempt_id (claim rt made s.ledger).1.tables ≡ true)
                  same (Claimed-row rt made c).1,
            )
      ]
    ]
