-- ===== src/Reconciliation/Judgement.antt =====
-- What a judgement of the answer of the verifier has established.
use nexus_vector_keeperhub.Prelude.{
  ℕ, ◌≤◌, ◌≡◌, refl, ◌⊎◌, inl, inr, String, true, Option, some, none, arith, Option-cases, eq_iff,
}
use nexus_vector_keeperhub.Errors.{ok, Result-cases}
use nexus_vector_keeperhub.Clock.{Datetime}
use nexus_vector_keeperhub.Runtime.{Runtime}
use nexus_vector_keeperhub.Mission.Records.{EffectRecord, StoredMission}
use nexus_vector_keeperhub.Attempt.States.{AttemptState}
use nexus_vector_keeperhub.Persistence.AttemptStore.{StoredAttempt}
use nexus_vector_keeperhub.Evidence.{
  Observation, ObservationStatus, ObservedTransfer, derive_evidence_fingerprint,
}
use nexus_vector_keeperhub.Reconciliation.{
  Outcome, Reconciled, judge, judge_transfer, unresolved_outcome, unknown_outcome,
}
use nexus_vector_keeperhub.Reconciliation.Steps.{Stores, economic_match, mark_unknown}
use nexus_vector_keeperhub.Reconciliation.Soundness.{judge_transfer-verified}

-- The verifier showed a transfer that has the economics of the effect and enough confirmations,
-- and the report carries the fingerprint of that transfer.
pub record Evidenced (rt : Runtime) (sender : String) (minimum : ℕ) (effect : EffectRecord)
    (answer : Option Observation) (r : Reconciled) : Type 0 where
  pub transfer : ObservedTransfer
  pub observation : Observation
  pub answered : answer ≡ some observation
  pub shown : observation.transfer ≡ some transfer
  pub chain : transfer.chain_id ≡ effect.chain_id
  pub token : transfer.token_address ≡ effect.token_address
  pub sent_by : transfer.sender ≡ sender
  pub recipient : transfer.recipient ≡ effect.recipient
  pub amount : transfer.amount_base_units ≡ effect.amount_base_units
  pub confirmed : minimum ≤ transfer.confirmations
  pub fingerprint : r.evidence_fingerprint ≡ some (derive_evidence_fingerprint rt transfer)

Status-cases :
    (x : ObservationStatus)
    → ((x ≡ ObservationStatus.not_found) ⊎ (x ≡ ObservationStatus.ambiguous))
      ⊎ (x ≡ ObservationStatus.verified_transfer)
Status-cases ObservationStatus.not_found = inl (inl refl)
Status-cases ObservationStatus.ambiguous = inl (inr refl)
Status-cases ObservationStatus.verified_transfer = inr refl

module _ (rt : Runtime) where
  unknown_outcome-raises :
      (attempt : StoredAttempt) (at : Datetime) (s : Stores) {r : Reconciled}
      → (unknown_outcome rt attempt at s).0 ≡ ok r
      → ⊥
  unfolding unknown_outcome
  unknown_outcome-raises attempt at s h = elim (Result-cases (mark_unknown rt attempt at s).0) [
    | inl (x, e1) ↦ ground (arith, h, e1)
    | inr (a, e1) ↦ ground (arith, h, e1)
  ]

  unresolved_outcome-unresolved :
      (attempt : StoredAttempt) (mission : StoredMission) (at : Datetime) (s : Stores)
      {r : Reconciled}
      → (unresolved_outcome rt attempt mission at s).0 ≡ ok r
      → r.outcome ≡ Outcome.verified
      → ⊥
  unfolding unresolved_outcome
  unresolved_outcome-unresolved attempt mission at s h done =
      elim (Result-cases (mark_unknown rt attempt at s).0) [
        | inl (x, e1) ↦ ground (arith, h, e1)
        | inr (a, e1) ↦ ground (arith, h, e1, done)
      ]

  economic_match-agrees :
      (effect : EffectRecord) (sender : String) (t : ObservedTransfer)
      → economic_match effect sender t ≡ true
      → (t.chain_id ≡ effect.chain_id)
        × (t.token_address ≡ effect.token_address)
        × (t.sender ≡ sender)
        × (t.recipient ≡ effect.recipient)
        × (t.amount_base_units ≡ effect.amount_base_units)
  unfolding economic_match
  economic_match-agrees effect sender t h = ground (
    arith,
    h,
    eq_iff t.token_address effect.token_address,
    eq_iff t.sender sender,
    eq_iff t.recipient effect.recipient,
  )

  shown_transfer :
      (attempt : StoredAttempt) (mission : StoredMission) (effect : EffectRecord) (sender : String)
      (minimum : ℕ) (at : Datetime) (o : Observation) (t : ObservedTransfer) (s : Stores)
      {r : Reconciled}
      → o.transfer ≡ some t
      → (judge_transfer rt attempt mission effect sender minimum at t s).0 ≡ ok r
      → r.outcome ≡ Outcome.verified
      → (r.attempt.entry.state ≡ AttemptState.verified)
        × Evidenced rt sender minimum effect (some o) r
  shown_transfer attempt mission effect sender minimum at o t s shown h done =
      let facts = judge_transfer-verified rt attempt mission effect sender minimum at t s h done in
      let agrees = economic_match-agrees effect sender t facts.0 in
      (
        facts.3,
        record {
          transfer = t;
          observation = o;
          answered = refl;
          shown = shown;
          chain = agrees.0;
          token = agrees.1;
          sent_by = agrees.2;
          recipient = agrees.3;
          amount = agrees.4;
          confirmed = facts.1;
          fingerprint = facts.2;
        },
      )

  pub judge-verified :
      (attempt : StoredAttempt) (mission : StoredMission) (effect : EffectRecord) (sender : String)
      (minimum : ℕ) (at : Datetime) (answer : Option Observation) (s : Stores) {r : Reconciled}
      → (judge rt attempt mission effect sender minimum at answer s).0 ≡ ok r
      → r.outcome ≡ Outcome.verified
      → (r.attempt.entry.state ≡ AttemptState.verified)
        × Evidenced rt sender minimum effect answer r
  unfolding judge
  judge-verified attempt mission effect sender minimum at none s h done =
      absurd (unknown_outcome-raises attempt at s h)
  judge-verified attempt mission effect sender minimum at (some o) s {r} h done =
      elim (Status-cases o.status) [
        | inl (inl absent) ↦ absurd (
            unresolved_outcome-unresolved attempt mission at s {r = r} (ground (arith, h, absent))
              done)
        | inl (inr unsure) ↦ absurd (
            unresolved_outcome-unresolved attempt mission at s {r = r} (ground (arith, h, unsure))
              done)
        | inr seen ↦ elim (Option-cases o.transfer) [
          | inl lacking ↦
              absurd
                (unknown_outcome-raises attempt at s {r = r} (ground (arith, h, seen, lacking)))
          | inr (t, shown) ↦
              shown_transfer attempt mission effect sender minimum at o t s {r = r} shown
                (ground (arith, h, seen, shown)) done
        ]
      ]
