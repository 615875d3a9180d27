-- ===== src/Continuation/Safety.antt =====
-- What the planner hands out for execution is safe to execute.
use nexus_vector_keeperhub.Prelude.{
  String, ◌≡◌, refl, ◌∙◌, ◌⊎◌, inl, inr, Option, none, some, List, [], ◌∷◌, true, false, arith,
  eq_iff, eq_refl, All,
}
use nexus_vector_keeperhub.Prelude.Sorting.{sort_by}
use nexus_vector_keeperhub.Errors.{ok, Result-cases}
use nexus_vector_keeperhub.Runtime.{Runtime}
use nexus_vector_keeperhub.Mission.States.{MissionState}
use nexus_vector_keeperhub.Mission.Records.{EffectRecord, MissionRecord}
use nexus_vector_keeperhub.Attempt.{derive_attempt_id}
use nexus_vector_keeperhub.Attempt.States.{AttemptState}
use nexus_vector_keeperhub.Persistence.AttemptStore.{StoredAttempt}
use nexus_vector_keeperhub.Continuation.{
  Action, Decision, ContinuationPlan, AttemptLookup, classify_state, attempt_state, classify,
  contains, validate_effect, decide, decide_all, build_plan, check_plan, plan,
}
use nexus_vector_keeperhub.Continuation.Decisions.{execute_missing_exactly}
use nexus_vector_keeperhub.Continuation.Totals.{decide_all-cons, decide_all-nil, classify-Concerns}

-- No attempt for the effect has been sent: there is none, or it is still PREPARED.
abbrev pub IsUnsent : Runtime → AttemptLookup → String → Type 0
IsUnsent rt lookup effect_id =
    (id : String) × (derive_attempt_id rt effect_id ≡ ok id)
    × ((lookup id ≡ ok none)
        ⊎ ((s : StoredAttempt) × (lookup id ≡ ok (some s))
            × (s.entry.state ≡ AttemptState.prepared)
            × (s.entry.plan.effect_id ≡ effect_id)))

-- A decision to execute is taken for an unsent effect of a Mission that is ready or reconciling.
abbrev pub IsSafe : Runtime → AttemptLookup → MissionState → Decision → Type 0
IsSafe rt lookup m d =
    d.action ≡ Action.execute_missing
    → ((m ≡ MissionState.ready_for_execution) ⊎ (m ≡ MissionState.reconciling))
      × IsUnsent rt lookup d.effect_id

abbrev pub effect_ids : List Decision → List String
effect_ids [] = []
effect_ids (d ∷ ds) = d.effect_id ∷ effect_ids ds

-- No identifier stands in the list twice.
abbrev pub Distinct : List String → Type 0
Distinct [] = Unit
Distinct (x ∷ xs) = (contains x xs ≡ false) × Distinct xs

module _ (rt : Runtime) (lookup : AttemptLookup) where
  classify-IsSafe :
      (key id : String) (m : MissionState) (e : EffectRecord) (a : Option StoredAttempt)
      {d : Decision}
      → derive_attempt_id rt e.effect_id ≡ ok id
      → lookup id ≡ ok a
      → classify key m e a ≡ ok d
      → IsSafe rt lookup m d
  unfolding classify attempt_state
  classify-IsSafe key id m e none {d} derived found h execute =
      let why =
        (execute_missing_exactly m e.state none).0
          (elim (Result-cases (classify_state m e.state none)) [
            | inl (x, bad) ↦ ground arith
            | inr (c, decided) ↦ ground arith
          ]) in
      let same : e.effect_id ≡ d.effect_id = elim (Result-cases (classify_state m e.state none)) [
        | inl (x, bad) ↦ ground arith
        | inr (c, decided) ↦ ground arith
      ] in
      (why.0, (id, rw (← same) derived, inl found))
  classify-IsSafe key id m e (some s) {d} derived found h execute =
      let why =
        (execute_missing_exactly m e.state (some s.entry.state)).0
          (elim (Result-cases (classify_state m e.state (some s.entry.state))) [
            | inl (x, bad) ↦ ground arith
            | inr (c, decided) ↦ ground arith
          ]) in
      let same : e.effect_id ≡ d.effect_id =
        elim (Result-cases (classify_state m e.state (some s.entry.state))) [
          | inl (x, bad) ↦ ground arith
          | inr (c, decided) ↦ ground arith
        ] in
      let owner : s.entry.plan.effect_id ≡ e.effect_id =
        ground (arith, eq_iff s.entry.plan.effect_id e.effect_id) in
      let unsent : s.entry.state ≡ AttemptState.prepared = ground (arith, why.2) in
      (why.0, (id, rw (← same) derived, inr (s, found, unsent, owner ∙ same)))

  decide-IsSafe :
      (key : String) (m : MissionState) (e : EffectRecord) {d : Decision}
      → decide rt lookup key m e ≡ ok d
      → IsSafe rt lookup m d × (d.effect_id ≡ e.effect_id)
  unfolding decide
  decide-IsSafe key m e {d} h = elim (Result-cases (derive_attempt_id rt e.effect_id)) [
    | inl (x, bad) ↦ absurd (ground arith)
    | inr (id, derived) ↦ elim (Result-cases (lookup id)) [
      | inl (x, bad) ↦ absurd (ground arith)
      | inr (a, found) ↦
          let done : classify key m e a ≡ ok d = ground arith in
          (classify-IsSafe key id m e a derived found done, (classify-Concerns key m e a done).id)
    ]
  ]

  decide_all-IsSafe :
      (key : String) (m : MissionState) (refs ids : List String) (es : List EffectRecord)
      (ds : List Decision)
      → decide_all rt lookup key m refs ids es ≡ ok ds
      → All (IsSafe rt lookup m) ds
  decide_all-IsSafe key m refs ids [] ds h = rw (decide_all-nil rt lookup key m refs ids ds h) tt
  decide_all-IsSafe key m refs ids (e ∷ es) ds h =
      let (d, rest, whole, _, decided, done) = decide_all-cons rt lookup key m refs ids e es ds h in
      rw whole (
        (decide-IsSafe key m e decided).0,
        decide_all-IsSafe key m (e.effect_ref ∷ refs) (e.effect_id ∷ ids) es rest done,
      )

  -- An effect that passes the check was not seen before.
  validate_effect-fresh :
      (e : EffectRecord) (key : String) (refs ids : List String)
      → validate_effect e key refs ids ≡ ok tt
      → contains e.effect_id ids ≡ false
  unfolding validate_effect
  validate_effect-fresh e key refs ids h = ground arith

  -- The decisions are about different effects, and about none that was seen before.
  decide_all-Distinct :
      (key : String) (m : MissionState) (refs ids : List String) (es : List EffectRecord)
      (ds : List Decision)
      → decide_all rt lookup key m refs ids es ≡ ok ds
      → Distinct (effect_ids ds)
        × ((x : String) → contains x ids ≡ true → contains x (effect_ids ds) ≡ false)
  decide_all-Distinct key m refs ids [] ds h =
      rw (decide_all-nil rt lookup key m refs ids ds h) (tt, λ x seen. refl)
  decide_all-Distinct key m refs ids (e ∷ es) ds h =
      let (d, rest, whole, valid, decided, done) =
        decide_all-cons rt lookup key m refs ids e es ds h in
      let (apart, unseen) =
        decide_all-Distinct key m (e.effect_ref ∷ refs) (e.effect_id ∷ ids) es rest done in
      let same = (decide-IsSafe key m e decided).1 in
      let fresh = validate_effect-fresh e key refs ids valid in
      rw (whole, same)
        (
          (unseen e.effect_id (ground (arith, eq_refl e.effect_id)), apart),
          λ x seen. ground (arith, eq_iff e.effect_id x, unseen x (ground arith)),
        )

-- In every plan that is returned, the decisions are about pairwise different effects; and an effect
-- is given out for execution only if the Mission is ready or reconciling and no attempt for the
-- effect has been sent.
pub plan-IsSafe :
    (rt : Runtime) (lookup : AttemptLookup) (m : MissionRecord) (p : ContinuationPlan)
    → plan rt lookup m ≡ ok p
    → Distinct (effect_ids p.decisions) × All (IsSafe rt lookup m.state) p.decisions
unfolding plan build_plan check_plan
plan-IsSafe rt lookup m p h =
    let sorted' = sort_by (λ (e : EffectRecord). e.effect_ref) m.effects in
    elim (Result-cases (decide_all rt lookup m.mission_key m.state [] [] sorted')) [
      | inl (x, bad) ↦ absurd (ground arith)
      | inr (ds, done) ↦
          let same : p.decisions ≡ ds = ground arith in
          rw same (
            (decide_all-Distinct rt lookup m.mission_key m.state [] [] sorted' ds done).0,
            decide_all-IsSafe rt lookup m.mission_key m.state [] [] sorted' ds done,
          )
    ]
