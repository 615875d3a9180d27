-- ===== src/Continuation/Decisions.antt =====
-- When each decision of the planner is taken.
use nexus_vector_keeperhub.Prelude.{◌≡◌, ◌≢◌, ◌↔◌, ◌⊎◌, Option, none, some, false, arith}
use nexus_vector_keeperhub.Errors.{Result, ok, err}
use nexus_vector_keeperhub.Mission.States.{MissionState, EffectState}
use nexus_vector_keeperhub.Attempt.States.{AttemptState}
use nexus_vector_keeperhub.Continuation.{Action, Reason, classify_state, is_manual}

-- The action of a decision; `none` for an error.
abbrev pub action_of : Result (Action × Reason) → Option Action
action_of (ok (a, _)) = some a
action_of (err _) = none

-- The two UNCLASSIFIED errors are never raised: every combination of states has a decision.
pub classify_state-total :
    (m : MissionState) (e : EffectState) (a : Option AttemptState)
    → action_of (classify_state m e a) ≢ none
unfolding classify_state
classify_state-total m e a h = ground arith

-- An effect is executed exactly when its Mission is READY_FOR_EXECUTION or RECONCILING, the effect
-- is PLANNED, and there is no attempt for it or one that is still PREPARED.
pub execute_missing_exactly :
    (m : MissionState) (e : EffectState) (a : Option AttemptState)
    → (action_of (classify_state m e a) ≡ some Action.execute_missing) ↔ (
        ((m ≡ MissionState.ready_for_execution) ⊎ (m ≡ MissionState.reconciling))
        × (e ≡ EffectState.planned)
        × ((a ≡ none) ⊎ (a ≡ some AttemptState.prepared)))
unfolding classify_state
execute_missing_exactly m e a = (λ h. ground arith, λ h. ground arith)

-- An effect is skipped exactly when it is CHAIN_CONFIRMED, its attempt is VERIFIED, and its Mission
-- is not in a state that wants manual review.
pub skip_verified_exactly :
    (m : MissionState) (e : EffectState) (a : Option AttemptState)
    → (action_of (classify_state m e a) ≡ some Action.skip_verified) ↔ (
        (is_manual m ≡ false)
        × (e ≡ EffectState.chain_confirmed)
        × (a ≡ some AttemptState.verified))
unfolding classify_state
skip_verified_exactly m e a = (λ h. ground arith, λ h. ground arith)
