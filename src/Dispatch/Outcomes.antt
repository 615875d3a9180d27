-- ===== src/Dispatch/Outcomes.antt =====
-- What one call of `dispatch` comes back with, on every branch.
use mathlib.Core.Path.{subst}
use mathlib.Core.Bool.{false≢true}
use nexus_vector_keeperhub.Prelude.{
  ◌≡◌, refl, sym, ap, ◌∙◌, ◌⊎◌, inl, inr, true, false, Option, List, ◌∷◌, arith, Bool-cases,
}
use nexus_vector_keeperhub.Errors.{Error, Result, ok, err, Result-cases}
use nexus_vector_keeperhub.Clock.{Datetime}
use nexus_vector_keeperhub.Runtime.{Runtime}
use nexus_vector_keeperhub.Mission.Records.{StoredMission}
use nexus_vector_keeperhub.Attempt.{AttemptPlan, AttemptRecord, derive_attempt_id}
use nexus_vector_keeperhub.Attempt.States.{AttemptState}
use nexus_vector_keeperhub.Persistence.AttemptStore.{StoredAttempt}
use nexus_vector_keeperhub.Persistence.AttemptStore.Progress.{started}
use nexus_vector_keeperhub.Dispatch.{Port, World, prepare, claim, settle, call_port, dispatch}
use nexus_vector_keeperhub.Dispatch.Claims.{
  prepare-calls, prepare-started, claim-calls, claim-starts, settle-calls, settle-started,
}
use nexus_vector_keeperhub.Dispatch.Replies.{IsReady, prepare-result}
use nexus_vector_keeperhub.Dispatch.Settled.{Reports, IsOpen, claim-IsOpen, settle-Reports}

-- What a call of `dispatch` did to the provider: nothing, or one call, after the claim was durable.
pub record Calls {P : Type 0} (rt : Runtime) (port : Port P) (plan : AttemptPlan)
    (found : Result (Option StoredMission)) (w : World P) (r : Result StoredAttempt) (w' : World P)
    : Type 0 where
  pub sent : AttemptRecord
  pub ready : IsReady plan found
  pub derived : derive_attempt_id rt plan.effect_id ≡ ok sent.attempt_id
  pub state : sent.state ≡ AttemptState.in_flight
  pub calls : w'.calls ≡ sent ∷ w.calls
  pub provider : w'.provider ≡ (port sent w.provider).1
  pub before : started sent.attempt_id w.attempts.tables ≡ false
  pub after : started sent.attempt_id w'.attempts.tables ≡ true
  pub reports : Reports sent (port sent w.provider).0 r w'.attempts.tables

module _ {P : Type 0} (rt : Runtime) (port : Port P) (plan : AttemptPlan)
    (found : Result (Option StoredMission)) (at : Datetime) (w : World P) where
  refused_prepare :
      (e : Error)
      → (prepare rt plan found at w).0 ≡ err e
      → dispatch rt plan port found at w ≡ (err e, (prepare rt plan found at w).1)
  unfolding dispatch
  refused_prepare e refused = ground arith

  refused_claim :
      (s : StoredAttempt) (e : Error)
      → (prepare rt plan found at w).0 ≡ ok s
      → (claim rt s at (prepare rt plan found at w).1).0 ≡ err e
      → dispatch rt plan port found at w ≡ (err e, (claim rt s at (prepare rt plan found at w).1).1)
  unfolding dispatch
  refused_claim s e prepared refused = ground arith

  calls_port :
      (s c : StoredAttempt)
      → (prepare rt plan found at w).0 ≡ ok s
      → (claim rt s at (prepare rt plan found at w).1).0 ≡ ok c
      → let w' = (claim rt s at (prepare rt plan found at w).1).1 in
        dispatch rt plan port found at w
        ≡ settle rt (call_port port c.entry w').0 c at (call_port port c.entry w').1
  unfolding dispatch
  calls_port s c prepared won = ground arith

  Calls-claimed :
      (s c : StoredAttempt)
      → (prepare rt plan found at w).0 ≡ ok s
      → (claim rt s at (prepare rt plan found at w).1).0 ≡ ok c
      → let w' = (claim rt s at (prepare rt plan found at w).1).1 in
        let (r, w'') = settle rt (call_port port c.entry w').0 c at (call_port port c.entry w').1 in
        Calls rt port plan found w r w''
  unfolding call_port
  Calls-claimed s c prepared won =
      let w1 = (prepare rt plan found at w).1 in
      let w2 = (claim rt s at w1).1 in
      let w3 = (call_port port c.entry w2).1 in
      let reply = (call_port port c.entry w2).0 in
      let ready = prepare-result rt plan found at w prepared in
      let claimed = claim-starts rt s at w1 won in
      let same_calls : w2.calls ≡ w.calls =
        (claim-calls rt s at w1).0 ∙ (prepare-calls rt plan found at w).0 in
      let same_provider : w2.provider ≡ w.provider =
        (claim-calls rt s at w1).1 ∙ (prepare-calls rt plan found at w).1 in
      record {
        sent = c.entry;
        ready = ready.0;
        derived = ready.1 ∙ ap ok (sym claimed.4);
        state = claimed.0;
        calls =
            (settle-calls rt reply c at w3).0
            ∙ ap (λ (l : List AttemptRecord). c.entry ∷ l) same_calls;
        provider = (settle-calls rt reply c at w3).1 ∙ ap (λ p. (port c.entry p).1) same_provider;
        before = elim (Bool-cases (started c.entry.attempt_id w.attempts.tables)) [
          | inr not_yet ↦ not_yet
          | inl already ↦ absurd (
              false≢true
                (sym claimed.2 ∙ prepare-started rt c.entry.attempt_id plan found at w already))
        ];
        after = settle-started rt c.entry.attempt_id reply c at w3 claimed.3;
        reports =
            subst
              (λ y.
                Reports c.entry y (settle rt reply c at w3).0
                  (settle rt reply c at w3).1.attempts.tables)
              (ap (λ p. (port c.entry p).0) same_provider)
              (settle-Reports rt reply c at w3 (
                subst (λ i. IsOpen i w2.attempts.tables) (sym claimed.4)
                  (claim-IsOpen rt s at w1 won)));
      }

-- A call of `dispatch` either raises, without having called the port or touched the provider, or
-- calls it exactly once: then the Mission was ready and its effect planned, the attempt was not
-- started before and is past PREPARED in the journal after, and the call does one of three things.
-- Where the port replied ACCEPTED it may return the attempt that was sent as PROVIDER_ACKNOWLEDGED,
-- where it replied REJECTED_FINAL as FAILED_FINAL, and the journal holds the attempt as it is
-- returned; otherwise it raises EXECUTION_OUTCOME_UNKNOWN, and the journal holds the attempt as
-- IN_FLIGHT or EXECUTION_UNKNOWN.
pub dispatch_calls_once :
    {P : Type 0} (rt : Runtime) (port : Port P) (plan : AttemptPlan)
    (found : Result (Option StoredMission)) (at : Datetime) (w : World P)
    → let (r, w') = dispatch rt plan port found at w in
      ((e : Error) × (r ≡ err e) × (w'.calls ≡ w.calls) × (w'.provider ≡ w.provider))
      ⊎ Calls rt port plan found w r w'
dispatch_calls_once rt port plan found at w = elim (Result-cases (prepare rt plan found at w).0) [
  | inl (e, refused) ↦
      rw (refused_prepare rt port plan found at w e refused)
        (inl (e, refl, (prepare-calls rt plan found at w).0, (prepare-calls rt plan found at w).1))
  | inr (s, prepared) ↦
      let w1 = (prepare rt plan found at w).1 in
      elim (Result-cases (claim rt s at w1).0) [
        | inl (e, refused) ↦ rw (refused_claim rt port plan found at w s e prepared refused) (
            inl (
              e,
              refl,
              (claim-calls rt s at w1).0 ∙ (prepare-calls rt plan found at w).0,
              (claim-calls rt s at w1).1 ∙ (prepare-calls rt plan found at w).1,
            ))
        | inr (c, won) ↦
            rw (calls_port rt port plan found at w s c prepared won)
              (inr (Calls-claimed rt port plan found at w s c prepared won))
      ]
]
