-- ===== src/Reconciliation/Soundness.antt =====
-- What a reconciliation that reports VERIFIED has established.
use nexus_vector_keeperhub.Prelude.{
  ℕ, zero, suc, ◌≤◌, ◌≡◌, inl, inr, String, true, ◌&&◌, some, arith, ltb, Bool-cases, Option-cases,
}
use nexus_vector_keeperhub.Errors.{ok, Result-cases, is_attempt_store, is_stale}
use nexus_vector_keeperhub.Calls.{Call, ◌>>=◌}
use nexus_vector_keeperhub.Clock.{Datetime, later}
use nexus_vector_keeperhub.Runtime.{Runtime}
use nexus_vector_keeperhub.Mission.Records.{EffectRecord, StoredMission}
use nexus_vector_keeperhub.Attempt.States.{AttemptState, same, same→≡}
use nexus_vector_keeperhub.Persistence.AttemptStore.{StoredAttempt, AttemptDb, transition}
use nexus_vector_keeperhub.Persistence.AttemptStore
use nexus_vector_keeperhub.Persistence.AttemptStore.Progress.{transition-state}
use nexus_vector_keeperhub.Evidence.{ObservedTransfer, derive_evidence_fingerprint}
use nexus_vector_keeperhub.Reconciliation.{Outcome, Reconciled, judge_transfer}
use nexus_vector_keeperhub.Reconciliation.Steps.{
  Stores, transition_attempt, mark_verified, economic_match, project_confirmed_effect,
  block_attempt, mark_unknown, mark_manual_review, is_failed,
}

module _ {S A B : Type 0} where
  -- Inversion of a call that is followed by another.
  bind-returned :
      (m : Call S A) (f : A → Call S B) (s : S) {b : B}
      → ((m >>= f) s).0 ≡ ok b
      → (a : A) × ((m s).0 ≡ ok a) × ((f a (m s).1).0 ≡ ok b)
  bind-returned m f s h = elim (Result-cases (m s).0) [
    | inl (e, raised) ↦ absurd (ground (arith, h, raised))
    | inr (a, returned) ↦ (a, returned, ground (arith, h, returned))
  ]

module _ (rt : Runtime) where
  transition_attempt-state :
      (n : ℕ) (current : StoredAttempt) (target : AttemptState) (at : Datetime) (s : Stores)
      {a : StoredAttempt}
      → (transition_attempt rt n current target at s).0 ≡ ok a
      → a.entry.state ≡ target
  unfolding transition_attempt
  transition_attempt-state zero current target at s h = ground arith
  transition_attempt-state (suc n) current target at s {a} h =
      elim (Bool-cases (same current.entry.state target)) [
        | inl there ↦ ground (arith, h, there, same→≡ current.entry.state target there)
        | inr away ↦
            elim (Result-cases
              (transition rt current.entry.attempt_id current.revision target
                (later at current.entry.updated_at_utc) s.attempts).0) [
                  | inr (a, moved) ↦ ground (
                    arith,
                    h,
                    away,
                    moved,
                    transition-state rt current.entry.attempt_id current.revision target
                        (later at current.entry.updated_at_utc) s.attempts moved,
                  )
                  | inl (e, raised) ↦
                      elim (Bool-cases (is_attempt_store e.class && is_stale e.code)) [
                        | inr other ↦ absurd (ground (arith, h, away, raised, other))
                        | inl stale ↦
                            let s' : Stores = record s {
                              attempts =
                                  (transition rt current.entry.attempt_id current.revision target
                                    (later at current.entry.updated_at_utc) s.attempts).1;
                            } in
                            elim (Result-cases
                              (AttemptStore.get rt current.entry.attempt_id s'.attempts).0) [
                                | inl (x, unread) ↦
                                    absurd (ground (arith, h, away, raised, stale, unread))
                                | inr (found, read) ↦ elim (Option-cases found) [
                                  | inl gone ↦
                                      absurd (ground (arith, h, away, raised, stale, read, gone))
                                  | inr (c, there) ↦
                                      transition_attempt-state n c target at
                                        (record s' {
                                          attempts =
                                              (AttemptStore.get rt current.entry.attempt_id
                                                s'.attempts).1;
                                        })
                                        {a = a}
                                        (ground (arith, h, away, raised, stale, read, there))
                                ]
                              ]
                      ]
                ]
      ]

  mark_verified-state :
      (current : StoredAttempt) (at : Datetime) (s : Stores) {a : StoredAttempt}
      → (mark_verified rt current at s).0 ≡ ok a
      → a.entry.state ≡ AttemptState.verified
  unfolding mark_verified
  mark_verified-state current at s {a} h =
      elim (Bool-cases (same current.entry.state AttemptState.verified)) [
        | inl there ↦
            ground (arith, h, there, same→≡ current.entry.state AttemptState.verified there)
        | inr away ↦ elim (Bool-cases (is_failed current.entry.state)) [
          | inl dead ↦ ground (arith, h, away, dead)
          | inr alive ↦
              transition_attempt-state 12 current AttemptState.verified at s {a = a}
                (ground (arith, h, away, alive))
        ]
      ]

  pub judge_transfer-verified :
      (attempt : StoredAttempt) (mission : StoredMission) (effect : EffectRecord) (sender : String)
      (minimum : ℕ) (at : Datetime) (t : ObservedTransfer) (s : Stores) {r : Reconciled}
      → (judge_transfer rt attempt mission effect sender minimum at t s).0 ≡ ok r
      → r.outcome ≡ Outcome.verified
      → (economic_match effect sender t ≡ true)
        × (minimum ≤ t.confirmations)
        × (r.evidence_fingerprint ≡ some (derive_evidence_fingerprint rt t))
        × (r.attempt.entry.state ≡ AttemptState.verified)
  unfolding judge_transfer
  judge_transfer-verified attempt mission effect sender minimum at t s {r} h done =
      elim (Bool-cases (economic_match effect sender t)) [
        | inr differs ↦ elim (Result-cases (block_attempt rt attempt at s).0) [
          | inl (x, e1) ↦ absurd (ground (arith, h, differs, e1))
          | inr (a, e1) ↦
              elim (Result-cases
                (mark_manual_review rt mission at (block_attempt rt attempt at s).1).0) [
                  | inl (x, e2) ↦ absurd (ground (arith, h, differs, e1, e2))
                  | inr (m, e2) ↦ absurd (ground (arith, h, differs, e1, e2, done))
                ]
        ]
        | inl agrees ↦ elim (Bool-cases (ltb t.confirmations minimum)) [
          | inl early ↦ elim (Result-cases (mark_unknown rt attempt at s).0) [
            | inl (x, e1) ↦ absurd (ground (arith, h, agrees, early, e1))
            | inr (a, e1) ↦ absurd (ground (arith, h, agrees, early, e1, done))
          ]
          | inr enough ↦ elim (Bool-cases (is_failed attempt.entry.state)) [
            | inl dead ↦ elim (Result-cases (mark_manual_review rt mission at s).0) [
              | inl (x, e1) ↦ absurd (ground (arith, h, agrees, enough, dead, e1))
              | inr (m, e1) ↦ absurd (ground (arith, h, agrees, enough, dead, e1, done))
            ]
            | inr alive ↦
                elim (Result-cases (project_confirmed_effect rt mission effect.effect_ref at s).0) [
                  | inl (x, e1) ↦ absurd (ground (arith, h, agrees, enough, alive, e1))
                  | inr (m, e1) ↦
                      let s' = (project_confirmed_effect rt mission effect.effect_ref at s).1 in
                      elim (Result-cases (mark_verified rt attempt at s').0) [
                        | inl (x, e2) ↦ absurd (ground (arith, h, agrees, enough, alive, e1, e2))
                        | inr (a, e2) ↦ (
                          agrees,
                          ground (arith, enough),
                          ground (arith, h, agrees, enough, alive, e1, e2),
                          ground (
                            arith,
                            h,
                            agrees,
                            enough,
                            alive,
                            e1,
                            e2,
                            mark_verified-state attempt at s' e2,
                          ),
                        )
                      ]
                ]
          ]
        ]
      ]
