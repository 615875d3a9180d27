-- ===== src/Dispatch/Claims.antt =====
-- What the parts of `dispatch` do to the journal and to the calls of the port.
use mathlib.Core.Path.{subst}
use nexus_vector_keeperhub.Prelude.{String, ◌≡◌, sym, ap, ◌∙◌, inl, inr, true, false, Option, arith}
use nexus_vector_keeperhub.Errors.{ErrorClass, Result, ok, Result-cases}
use nexus_vector_keeperhub.Clock.{Datetime}
use nexus_vector_keeperhub.Runtime.{Runtime}
use nexus_vector_keeperhub.Mission.Records.{StoredMission}
use nexus_vector_keeperhub.Attempt.{AttemptPlan}
use nexus_vector_keeperhub.Attempt.States.{AttemptState}
use nexus_vector_keeperhub.Attempt.Moves.{IsValid}
use nexus_vector_keeperhub.Persistence.Database.{write-keeps}
use nexus_vector_keeperhub.Persistence.AttemptStore.{
  StoredAttempt, AttemptDb, initialize, transition, translate,
}
use nexus_vector_keeperhub.Persistence.AttemptStore.Progress.{
  started, create-started, transition-started, transition-claims,
}
use nexus_vector_keeperhub.Dispatch.{
  PortReply, World, prepare, claim, mark_unknown_best_effort, outcome_unknown, settle,
}

initialize-started :
    (a : String) (db : AttemptDb)
    → started a db.tables ≡ true
    → started a (initialize db).1.tables ≡ true
unfolding initialize
initialize-started a db old =
    write-keeps (λ t. started a t ≡ true) ErrorClass.attempt_store translate (λ t. ok (tt, t)) db
      (λ s t h. ground arith) old

module _ {P : Type 0} (rt : Runtime) where
  -- Before the claim nothing is called.
  pub prepare-calls :
      (plan : AttemptPlan) (found : Result (Option StoredMission)) (at : Datetime) (w : World P)
      → ((prepare rt plan found at w).1.calls ≡ w.calls)
        × ((prepare rt plan found at w).1.provider ≡ w.provider)
  unfolding prepare
  prepare-calls plan found at w = ground arith

  pub claim-calls :
      (s : StoredAttempt) (at : Datetime) (w : World P)
      → ((claim rt s at w).1.calls ≡ w.calls) × ((claim rt s at w).1.provider ≡ w.provider)
  unfolding claim
  claim-calls s at w = ground arith

  pub settle-calls :
      (reply : PortReply) (s : StoredAttempt) (at : Datetime) (w : World P)
      → ((settle rt reply s at w).1.calls ≡ w.calls)
        × ((settle rt reply s at w).1.provider ≡ w.provider)
  unfolding settle outcome_unknown mark_unknown_best_effort
  settle-calls reply s at w = ground arith

  -- None of the parts takes a started attempt back.
  pub prepare-started :
      (a : String) (plan : AttemptPlan) (found : Result (Option StoredMission)) (at : Datetime)
      (w : World P)
      → started a w.attempts.tables ≡ true
      → started a (prepare rt plan found at w).1.attempts.tables ≡ true
  unfolding prepare
  prepare-started a plan found at w old = grind (arith, initialize-started, create-started)

  pub claim-started :
      (a : String) (s : StoredAttempt) (at : Datetime) (w : World P)
      → started a w.attempts.tables ≡ true
      → started a (claim rt s at w).1.attempts.tables ≡ true
  unfolding claim
  claim-started a s at w old =
      transition-started rt a s.entry.attempt_id s.revision AttemptState.in_flight at w.attempts old

  pub settle-started :
      (a : String) (reply : PortReply) (s : StoredAttempt) (at : Datetime) (w : World P)
      → started a w.attempts.tables ≡ true
      → started a (settle rt reply s at w).1.attempts.tables ≡ true
  unfolding settle outcome_unknown mark_unknown_best_effort
  settle-started a reply s at w old = grind (arith, transition-started)

  -- The claim: the attempt was not started before, and is durably IN_FLIGHT after.
  pub claim-starts :
      (s : StoredAttempt) (at : Datetime) (w : World P) {s' : StoredAttempt}
      → (claim rt s at w).0 ≡ ok s'
      → (s'.entry.state ≡ AttemptState.in_flight)
        × IsValid rt s'.entry
        × (started s'.entry.attempt_id w.attempts.tables ≡ false)
        × (started s'.entry.attempt_id (claim rt s at w).1.attempts.tables ≡ true)
        × (s'.entry.attempt_id ≡ s.entry.attempt_id)
  unfolding claim
  claim-starts s at w {s'} h =
      elim (Result-cases
        (transition rt s.entry.attempt_id s.revision AttemptState.in_flight at w.attempts).0) [
          | inl (e, raised) ↦ ground arith
          | inr (x, returned) ↦
              let done =
                transition-claims rt s.entry.attempt_id s.revision at w.attempts returned in
              let same' : x ≡ s' = ground arith in
              (
                ground (arith, done.1),
                subst (λ y. IsValid rt y.entry) same' done.2,
                ap (λ (y : StoredAttempt). started y.entry.attempt_id w.attempts.tables) (sym same')
                    ∙ ap (λ y. started y w.attempts.tables) done.0
                    ∙ done.3,
                rw (← same', done.0) done.4,
                ap (λ (y : StoredAttempt). y.entry.attempt_id) (sym same') ∙ done.0,
              )
        ]
