-- ===== src/Reconciliation/Report.antt =====
-- The report of a reconciliation, whichever way it ends.
use nexus_vector_keeperhub.Prelude.{
  ℕ, ◌≡◌, ◌⊎◌, inl, inr, String, ◌&&◌, some, none, arith, ltb, find, ◌==◌, Bool-cases, Option-cases,
  if◌then◌else◌,
}
use nexus_vector_keeperhub.Errors.{ErrorClass, Code, ok, Result-cases}
use nexus_vector_keeperhub.Calls.{Call, pure, ◌>>=◌}
use nexus_vector_keeperhub.Clock.{Datetime, require_utc-cases}
use nexus_vector_keeperhub.Runtime.{Runtime}
use nexus_vector_keeperhub.Mission.Records.{EffectRecord, StoredMission}
use nexus_vector_keeperhub.Mission.States.{EffectState, same_effect_state→≡}
use nexus_vector_keeperhub.Attempt.States.{AttemptState, same, same→≡}
use nexus_vector_keeperhub.Persistence.AttemptStore.{StoredAttempt, AttemptDb, transition}
use nexus_vector_keeperhub.Persistence.AttemptStore
use nexus_vector_keeperhub.Persistence.MissionStore
use nexus_vector_keeperhub.Evidence.{normalize_expected_sender}
use nexus_vector_keeperhub.Reconciliation.{Outcome, Reconciled, Verifier, reconcile, judge}
use nexus_vector_keeperhub.Reconciliation.Steps.{
  Stores, on_missions, require_some, find_effect, is_confirmed,
}
use nexus_vector_keeperhub.Reconciliation.Judgement.{Evidenced, judge-verified}

-- What `reconcile` reads before it judges: the attempt, its Mission, and the effect of the attempt.
pub record Subject (rt : Runtime) (attempt_id expected_sender : String) (s : Stores) : Type 0 where
  pub sender : String
  pub attempt : StoredAttempt
  pub mission : StoredMission
  pub effect : EffectRecord
  pub normalized : normalize_expected_sender expected_sender ≡ ok sender
  pub loaded : (AttemptStore.get rt attempt_id s.attempts).0 ≡ ok (some attempt)
  pub looked_up :
      (MissionStore.get rt attempt.entry.plan.mission_key s.missions).0 ≡ ok (some mission)
  pub found :
      find (λ (e : EffectRecord). e.effect_id == attempt.entry.plan.effect_id) mission.entry.effects
      ≡ some effect

module _ (rt : Runtime) where
  -- The rest of `reconcile` once the attempt is loaded.
  abbrev after_load : String → ℕ → Verifier → Datetime → StoredAttempt → Call Stores Reconciled
  after_load sender minimum verifier at attempt = do
    looked_up ← on_missions (MissionStore.get rt attempt.entry.plan.mission_key)
    mission ← require_some Code.mission_not_found looked_up
    effect ← find_effect mission attempt.entry.plan.effect_id
    if same attempt.entry.state AttemptState.verified && is_confirmed effect
        then pure (record {
          outcome = Outcome.verified;
          attempt = attempt;
          mission = mission;
          evidence_fingerprint = none;
        })
        else judge rt attempt mission effect sender minimum at (verifier attempt.entry)

  reconcile_loaded :
      (attempt_id expected_sender : String) (minimum : ℕ) (verifier : Verifier) (at : Datetime)
      (s : Stores) (r : Reconciled)
      → r.outcome ≡ Outcome.verified
      → (sender : String) (attempt : StoredAttempt)
      → normalize_expected_sender expected_sender ≡ ok sender
      → (AttemptStore.get rt attempt_id s.attempts).0 ≡ ok (some attempt)
      → (after_load sender minimum verifier at attempt
          (record s { attempts = (AttemptStore.get rt attempt_id s.attempts).1 })).0
        ≡ ok r
      → (r.attempt.entry.state ≡ AttemptState.verified)
        × ((x : Subject rt attempt_id expected_sender s) × ((x.attempt.entry.state
                  ≡ AttemptState.verified)
                × (x.effect.state ≡ EffectState.chain_confirmed)
              ⊎ Evidenced rt x.sender minimum x.effect (verifier x.attempt.entry) r))
  unfolding find_effect
  reconcile_loaded attempt_id expected_sender minimum verifier at s r done sender attempt e0 e3 h =
      elim (Result-cases (MissionStore.get rt attempt.entry.plan.mission_key s.missions).0) [
        | inl (x, e4) ↦ absurd (ground (arith, h, e4))
        | inr (none, e4) ↦ absurd (ground (arith, h, e4))
        | inr (some mission, e4) ↦
            elim (Option-cases (
              find (λ (e : EffectRecord). e.effect_id == attempt.entry.plan.effect_id)
                mission.entry.effects)) [
                  | inl gone ↦ absurd (ground (arith, h, e4, gone))
                  | inr (effect, found) ↦
                      let x : Subject rt attempt_id expected_sender s = record {
                        sender = sender;
                        attempt = attempt;
                        mission = mission;
                        effect = effect;
                        normalized = e0;
                        loaded = e3;
                        looked_up = e4;
                        found = found;
                      } in
                      elim (Bool-cases
                        (same attempt.entry.state AttemptState.verified && is_confirmed effect)) [
                          | inl already ↦
                              let was : attempt.entry.state ≡ AttemptState.verified =
                                same→≡ attempt.entry.state AttemptState.verified
                                  (ground (arith, already)) in
                              (
                                ground (arith, h, e4, found, already, was),
                                (
                                  x,
                                  inl (
                                    was,
                                    same_effect_state→≡ effect.state EffectState.chain_confirmed
                                        (ground (arith, already)),
                                  ),
                                ),
                              )
                          | inr unsettled ↦
                              let judged =
                                judge-verified rt attempt mission effect sender minimum at
                                  (verifier attempt.entry)
                                  (record {
                                    attempts = (AttemptStore.get rt attempt_id s.attempts).1;
                                    missions =
                                        (MissionStore.get rt attempt.entry.plan.mission_key
                                          s.missions).1;
                                  })
                                  {r = r} (ground (arith, h, e4, found, unsettled)) done in
                              (judged.0, (x, inr judged.1))
                        ]
                ]
      ]

  -- A reconciliation that reports VERIFIED returns the attempt in the state VERIFIED; and either
  -- the attempt was VERIFIED and its effect CHAIN_CONFIRMED before the call, or the verifier
  -- answered with a transfer on the chain, in the token, from the expected sender, to the recipient
  -- and of the amount of the effect, with at least the confirmations asked for.
  pub reconcile_sound :
      (attempt_id expected_sender : String) (minimum : ℕ) (verifier : Verifier) (at : Datetime)
      (s : Stores) (r : Reconciled)
      → (reconcile rt attempt_id expected_sender minimum verifier at s).0 ≡ ok r
      → r.outcome ≡ Outcome.verified
      → (r.attempt.entry.state ≡ AttemptState.verified)
        × ((x : Subject rt attempt_id expected_sender s) × ((x.attempt.entry.state
                  ≡ AttemptState.verified)
                × (x.effect.state ≡ EffectState.chain_confirmed)
              ⊎ Evidenced rt x.sender minimum x.effect (verifier x.attempt.entry) r))
  unfolding reconcile
  reconcile_sound attempt_id expected_sender minimum verifier at s r h done =
      elim (Result-cases (normalize_expected_sender expected_sender)) [
        | inl (x, e0) ↦ absurd (ground (arith, h, e0))
        | inr (sender, e0) ↦ elim (require_utc-cases ErrorClass.reconciliation at) [
          | inr (x, e1) ↦ absurd (ground (arith, h, e0, e1))
          | inl e1 ↦ elim (Bool-cases (ltb minimum 1)) [
            | inl low ↦ absurd (ground (arith, h, e0, e1, low))
            | inr e2 ↦ elim (Result-cases (AttemptStore.get rt attempt_id s.attempts).0) [
              | inl (x, e3) ↦ absurd (ground (arith, h, e0, e1, e2, e3))
              | inr (none, e3) ↦ absurd (ground (arith, h, e0, e1, e2, e3))
              | inr (some attempt, e3) ↦
                  reconcile_loaded attempt_id expected_sender minimum verifier at s r done sender
                    attempt e0 e3 (ground (arith, h, e0, e1, e2, e3))
            ]
          ]
        ]
      ]
