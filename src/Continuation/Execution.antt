-- ===== src/Continuation/Execution.antt =====
-- What the effects that a plan says to execute have in common.
use nexus_vector_keeperhub.Prelude.{
  ◌≡◌, refl, ◌⊎◌, inl, inr, String, true, false, List, [], ◌∷◌, arith, All, Bool-cases,
}
use nexus_vector_keeperhub.Errors.{ok}
use nexus_vector_keeperhub.Runtime.{Runtime}
use nexus_vector_keeperhub.Mission.States.{MissionState}
use nexus_vector_keeperhub.Mission.Records.{MissionRecord}
use nexus_vector_keeperhub.Continuation.{
  Action, Decision, ContinuationPlan, AttemptLookup, plan, contains, executable_effect_ids,
  same_action,
}
use nexus_vector_keeperhub.Continuation.Safety.{IsUnsent, IsSafe, Distinct, effect_ids, plan-IsSafe}

-- A Mission that is ready or reconciling, and an effect of it that no attempt has left PREPARED for.
abbrev pub IsExecutable : Runtime → AttemptLookup → MissionState → String → Type 0
IsExecutable rt lookup m id =
    ((m ≡ MissionState.ready_for_execution) ⊎ (m ≡ MissionState.reconciling))
    × IsUnsent rt lookup id

same_action-executes :
    (a : Action) → same_action a Action.execute_missing ≡ true → a ≡ Action.execute_missing
same_action-executes a h = ground arith

contains-executable :
    (x : String) (ds : List Decision)
    → contains x (effect_ids ds) ≡ false
    → contains x (executable_effect_ids ds) ≡ false
unfolding executable_effect_ids
contains-executable x [] h = refl
contains-executable x (d ∷ ds) h =
    let rest = contains-executable x ds (ground (arith, h)) in ground (arith, h, rest)

executable_effect_ids-Distinct :
    (ds : List Decision) → Distinct (effect_ids ds) → Distinct (executable_effect_ids ds)
unfolding executable_effect_ids
executable_effect_ids-Distinct [] h = tt
executable_effect_ids-Distinct (d ∷ ds) h =
    elim (Bool-cases (same_action d.action Action.execute_missing)) [
      | inl executes ↦
          rw executes
            (contains-executable d.effect_id ds h.0, executable_effect_ids-Distinct ds h.1)
      | inr skips ↦ rw skips (executable_effect_ids-Distinct ds h.1)
    ]

executable_effect_ids-IsExecutable :
    (rt : Runtime) (lookup : AttemptLookup) (m : MissionState) (ds : List Decision)
    → All (IsSafe rt lookup m) ds
    → All (IsExecutable rt lookup m) (executable_effect_ids ds)
unfolding executable_effect_ids
executable_effect_ids-IsExecutable rt lookup m [] h = tt
executable_effect_ids-IsExecutable rt lookup m (d ∷ ds) h =
    elim (Bool-cases (same_action d.action Action.execute_missing)) [
      | inl executes ↦ rw executes (
        h.0 (same_action-executes d.action executes),
        executable_effect_ids-IsExecutable rt lookup m ds h.1,
      )
      | inr skips ↦ rw skips (executable_effect_ids-IsExecutable rt lookup m ds h.1)
    ]

-- The effects that a plan says to execute are distinct; each belongs to a Mission that is
-- READY_FOR_EXECUTION or RECONCILING, and the lookup found no attempt of it or one that is PREPARED.
pub plan-IsExecutable :
    (rt : Runtime) (lookup : AttemptLookup) (m : MissionRecord) (p : ContinuationPlan)
    → plan rt lookup m ≡ ok p
    → Distinct (executable_effect_ids p.decisions)
      × All (IsExecutable rt lookup m.state) (executable_effect_ids p.decisions)
plan-IsExecutable rt lookup m p h =
    let safe = plan-IsSafe rt lookup m p h in
    (
      executable_effect_ids-Distinct p.decisions safe.0,
      executable_effect_ids-IsExecutable rt lookup m.state p.decisions safe.1,
    )
