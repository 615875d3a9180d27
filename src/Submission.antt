-- ===== src/Submission.antt =====
-- The three ports together, as a dispatch uses them: src/nexus_vector/application/execution_dispatch.py
-- calls the port of provider_reference_port.py, whose provider port is the gate of
-- execution_surface_gate.py, whose delegate is the provider.
use mathlib.Core.Path.{subst}
use nexus_vector_keeperhub.Prelude.{String, ◌≡◌, sym, ap, ◌∙◌, inl, inr, Option, ◌∷◌, arith}
use nexus_vector_keeperhub.Errors.{Result, ok}
use nexus_vector_keeperhub.Clock.{Datetime}
use nexus_vector_keeperhub.Runtime.{Runtime, NfcIsIdempotent}
use nexus_vector_keeperhub.Mission.Records.{StoredMission}
use nexus_vector_keeperhub.Attempt.{AttemptPlan, AttemptRecord}
use nexus_vector_keeperhub.Attempt.States.{AttemptState}
use nexus_vector_keeperhub.Persistence.AttemptStore.{StoredAttempt}
use nexus_vector_keeperhub.Dispatch.{PortOutcome, PortReply, World, Port, dispatch}
use nexus_vector_keeperhub.Dispatch.Outcomes.{dispatch_calls_once}
use nexus_vector_keeperhub.Dispatch.Settled.{IsOutcome}
use nexus_vector_keeperhub.SurfaceGate.{Gate, GateState, Delegate, execute as gate_execute}
use nexus_vector_keeperhub.SurfaceGate.Exclusive.{IsBoundTo, execute_delegates_once}
use nexus_vector_keeperhub.ReferencePort.{
  ProviderReply, ProviderPort, Journal, reply_of, as_port, execute,
}
use nexus_vector_keeperhub.ReferencePort.Journaled.{IsJournaled, execute_journals}

-- The gate as the provider port of the journaling port.
abbrev pub as_provider :
    {Q : Type 0} → Runtime → Gate → Delegate Q ProviderReply → ProviderPort (GateState Q)
as_provider rt g delegate attempt = gate_execute rt g delegate attempt

abbrev pub chain :
    {Q : Type 0} → Runtime → String → Gate → Delegate Q ProviderReply → Port (Journal (GateState Q))
chain rt namespace g delegate = as_port rt namespace (as_provider rt g delegate)

-- An attempt whose reference is journaled and whose effect is bound to the surface of the gate.
pub record Submitted {Q : Type 0} (rt : Runtime) (g : Gate) (sent : AttemptRecord)
    (s : Journal (GateState Q)) : Type 0 where
  pub reference : String
  pub journaled : IsJournaled rt sent reference s.references.tables
  pub bound : IsBoundTo rt s.provider.bindings sent.plan.effect_id g.surface

IsOutcome-acknowledged :
    (reply : PortReply) (st : AttemptState)
    → IsOutcome reply st
    → st ≡ AttemptState.provider_acknowledged
    → reply ≡ PortReply.replied PortOutcome.accepted
IsOutcome-acknowledged reply st (inl (accepted, _)) h = accepted
IsOutcome-acknowledged reply st (inr (_, failed)) h = absurd (ground (arith, failed, h))

reply_of-accepted :
    (r : Result PortOutcome)
    → reply_of r ≡ PortReply.replied PortOutcome.accepted
    → r ≡ ok PortOutcome.accepted
reply_of-accepted r h = ground arith

module _ {Q : Type 0} (rt : Runtime) (nfc : NfcIsIdempotent rt) (namespace : String) (g : Gate)
    (delegate : Delegate Q ProviderReply) where
  -- The gate replies only where it has bound the effect.
  gate_replied :
      (attempt : AttemptRecord) (s : GateState Q) {reply : ProviderReply}
      → (as_provider rt g delegate attempt s).0 ≡ ok reply
      → IsBoundTo rt
          (as_provider rt g delegate attempt s).1.bindings
          attempt.plan.effect_id
          g.surface
  gate_replied attempt s h = elim (execute_delegates_once rt g delegate attempt s) [
    | inl (e, raised, _, _) ↦ absurd (ground (arith, h, raised))
    | inr done ↦ done.bound
  ]

  -- ACCEPTED by the chain of ports.
  chain_accepted :
      (attempt : AttemptRecord) (s : Journal (GateState Q))
      → (execute rt namespace (as_provider rt g delegate) attempt s).0 ≡ ok PortOutcome.accepted
      → Submitted rt g attempt (execute rt namespace (as_provider rt g delegate) attempt s).1
  chain_accepted attempt s h =
      elim (execute_journals rt nfc namespace (as_provider rt g delegate) attempt s) [
        | inl (e, raised, _) ↦ absurd (ground (arith, h, raised))
        | inr asked ↦ elim asked.answers [
          | inl (reference, replied, accepted, journaled) ↦ record {
            reference = reference;
            journaled = journaled;
            bound =
                subst
                  (λ (q : GateState Q). IsBoundTo rt q.bindings attempt.plan.effect_id g.surface)
                  (sym asked.provider) (gate_replied attempt s.provider replied);
          }
          | inr (inl (replied, rejected)) ↦ absurd (ground (arith, h, rejected))
          | inr (inr (e, raised)) ↦ absurd (ground (arith, h, raised))
        ]
      ]

-- A dispatch over the chain of ports that returns an attempt as PROVIDER_ACKNOWLEDGED has sent one
-- attempt, for which the journal holds the reference of the provider, and whose effect is bound in the
-- table to the surface of the gate.
pub dispatch-Submitted :
    {Q : Type 0} (rt : Runtime) (nfc : NfcIsIdempotent rt) (namespace : String) (g : Gate)
    (delegate : Delegate Q ProviderReply) (plan : AttemptPlan)
    (found : Result (Option StoredMission)) (at : Datetime) (w : World (Journal (GateState Q)))
    (s : StoredAttempt)
    → let (r, w') = dispatch rt plan (chain rt namespace g delegate) found at w in
      r ≡ ok s
      → s.entry.state ≡ AttemptState.provider_acknowledged
      → (sent : AttemptRecord) × (w'.calls ≡ sent ∷ w.calls) × Submitted rt g sent w'.provider
dispatch-Submitted rt nfc namespace g delegate plan found at w s returned acknowledged =
    elim (dispatch_calls_once rt (chain rt namespace g delegate) plan found at w) [
      | inl (e, raised, _, _) ↦ absurd (ground (arith, returned, raised))
      | inr c ↦ elim c.reports [
        | inr (raised, pending) ↦ absurd (ground (arith, returned, raised))
        | inl (x, reported, came) ↦
            let same : x ≡ s = ground (arith, returned, reported) in
            let outcome =
              reply_of-accepted
                (execute rt namespace (as_provider rt g delegate) c.sent w.provider).0
                (IsOutcome-acknowledged _ x.entry.state came.outcome
                  (ap (λ (y : StoredAttempt). y.entry.state) same ∙ acknowledged)) in
            (
              c.sent,
              c.calls,
              subst (λ p. Submitted rt g c.sent p) (sym c.provider)
                  (chain_accepted rt nfc namespace g delegate c.sent w.provider outcome),
            )
      ]
    ]
