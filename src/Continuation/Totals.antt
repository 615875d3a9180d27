-- ===== src/Continuation/Totals.antt =====
-- The plan of a Mission: every effect once, every unit of the total once.
use nexus_vector_keeperhub.Prelude.{
  ℕ, ◌+◌, String, ◌≡◌, refl, ◌∙◌, ◌≢◌, inl, inr, Option, List, [], ◌∷◌, arith, eq_iff, length,
  sum_of,
}
use nexus_vector_keeperhub.Prelude.Sorting.{sort_by, sum_of-sort_by, length-sort_by}
use nexus_vector_keeperhub.Errors.{ok, Result-cases}
use nexus_vector_keeperhub.Runtime.{Runtime}
use nexus_vector_keeperhub.Mission.States.{MissionState}
use nexus_vector_keeperhub.Mission.Records.{EffectRecord, MissionRecord}
use nexus_vector_keeperhub.Attempt.{derive_attempt_id}
use nexus_vector_keeperhub.Persistence.AttemptStore.{StoredAttempt}
use nexus_vector_keeperhub.Continuation.{
  Action, Decision, ContinuationPlan, AttemptLookup, classify, validate_effect, decide, decide_all,
  amount_for, build_plan, check_plan, plan,
}

-- The four amounts of any list of decisions add up to its total.
amounts-partition :
    (ds : List Decision)
    → amount_for Action.skip_verified ds
        + amount_for Action.execute_missing ds
        + amount_for Action.reconcile_required ds
        + amount_for Action.manual_review ds
      ≡ sum_of (λ d. d.amount_base_units) ds
amounts-partition [] = refl
amounts-partition (d ∷ ds) = ground (arith, amounts-partition ds)

-- A decision copies the identity and the amount of its effect.
pub record Concerns (e : EffectRecord) (d : Decision) : Type 0 where
  pub ref : d.effect_ref ≡ e.effect_ref
  pub id : d.effect_id ≡ e.effect_id
  pub amount : d.amount_base_units ≡ e.amount_base_units

-- The decisions stand for the effects, one for one and in their order.
abbrev pub Pairs : List EffectRecord → List Decision → Type 0
Pairs [] [] = Unit
Pairs (e ∷ es) (d ∷ ds) = Concerns e d × Pairs es ds
Pairs _ _ = ⊥

pub classify-Concerns :
    (key : String) (m : MissionState) (e : EffectRecord) (a : Option StoredAttempt) {d : Decision}
    → classify key m e a ≡ ok d
    → Concerns e d
unfolding classify
classify-Concerns key m e a h = ground arith

Pairs-amounts :
    (es : List EffectRecord) (ds : List Decision)
    → Pairs es ds
    → (sum_of (λ d. d.amount_base_units) ds ≡ sum_of (λ (e : EffectRecord). e.amount_base_units) es)
      × (length ds ≡ length es)
Pairs-amounts [] [] p = (refl, refl)
Pairs-amounts [] (d ∷ ds) p = absurd p
Pairs-amounts (e ∷ es) [] p = absurd p
Pairs-amounts (e ∷ es) (d ∷ ds) p =
    let rest = Pairs-amounts es ds p.1 in (omega (arith, rest.0, p.0.amount), omega (arith, rest.1))

module _ (rt : Runtime) (lookup : AttemptLookup) where
  decide-Concerns :
      (key : String) (m : MissionState) (e : EffectRecord) {d : Decision}
      → decide rt lookup key m e ≡ ok d
      → Concerns e d
  unfolding decide
  decide-Concerns key m e {d} h = elim (Result-cases (derive_attempt_id rt e.effect_id)) [
    | inl (x, bad) ↦ ground arith
    | inr (id, derived) ↦ elim (Result-cases (lookup id)) [
      | inl (x, bad) ↦ ground arith
      | inr (a, found) ↦ classify-Concerns key m e a (ground arith)
    ]
  ]

  -- What the loop did for the first effect and for the others, where it returned.
  pub decide_all-cons :
      (key : String) (m : MissionState) (refs ids : List String) (e : EffectRecord)
      (es : List EffectRecord) (ds : List Decision)
      → decide_all rt lookup key m refs ids (e ∷ es) ≡ ok ds
      → (d : Decision) × (rest : List Decision) × (ds ≡ d ∷ rest)
        × (validate_effect e key refs ids ≡ ok tt)
        × (decide rt lookup key m e ≡ ok d)
        × (decide_all rt lookup key m (e.effect_ref ∷ refs) (e.effect_id ∷ ids) es ≡ ok rest)
  unfolding decide_all
  decide_all-cons key m refs ids e es ds h = elim (Result-cases (validate_effect e key refs ids)) [
    | inl (x, bad) ↦ absurd (ground arith)
    | inr (u, valid) ↦ elim (Result-cases (decide rt lookup key m e)) [
      | inl (x, bad) ↦ absurd (ground arith)
      | inr (d, decided) ↦
          elim (Result-cases
            (decide_all rt lookup key m (e.effect_ref ∷ refs) (e.effect_id ∷ ids) es)) [
              | inl (x, bad) ↦ absurd (ground arith)
              | inr (rest, done) ↦ (d, rest, ground arith, valid, decided, done)
            ]
    ]
  ]

  pub decide_all-nil :
      (key : String) (m : MissionState) (refs ids : List String) (ds : List Decision)
      → decide_all rt lookup key m refs ids [] ≡ ok ds
      → ds ≡ []
  unfolding decide_all
  decide_all-nil key m refs ids ds h = ground arith

  pub decide_all-Pairs :
      (key : String) (m : MissionState) (refs ids : List String) (es : List EffectRecord)
      (ds : List Decision)
      → decide_all rt lookup key m refs ids es ≡ ok ds
      → Pairs es ds
  decide_all-Pairs key m refs ids [] ds h = rw (decide_all-nil key m refs ids ds h) tt
  decide_all-Pairs key m refs ids (e ∷ es) ds h =
      let (d, rest, whole, _, decided, done) = decide_all-cons key m refs ids e es ds h in
      rw whole (
        decide-Concerns key m e decided,
        decide_all-Pairs key m (e.effect_ref ∷ refs) (e.effect_id ∷ ids) es rest done,
      )

abbrev amount : EffectRecord → ℕ
amount e = e.amount_base_units

abbrev ref : EffectRecord → String
ref e = e.effect_ref

-- The final checks of `plan` never fail: they hold of whatever the loop returned.
check_plan-passes :
    (rt : Runtime) (lookup : AttemptLookup) (m : MissionRecord) (ds : List Decision)
    → decide_all rt lookup m.mission_key m.state [] [] (sort_by ref m.effects) ≡ ok ds
    → check_plan m.effects (build_plan m.mission_key m.state ds)
      ≡ ok (build_plan m.mission_key m.state ds)
unfolding check_plan build_plan
check_plan-passes rt lookup m ds h =
    let same =
      Pairs-amounts (sort_by ref m.effects) ds
        (decide_all-Pairs rt lookup m.mission_key m.state [] [] (sort_by ref m.effects) ds h) in
    ground (arith, amounts-partition ds, length-sort_by ref m.effects, same.0, same.1)

-- Past its guards, `plan` is built from the decisions of the loop.
plan-built :
    (rt : Runtime) (lookup : AttemptLookup) (m : MissionRecord) (ds : List Decision)
    → decide_all rt lookup m.mission_key m.state [] [] (sort_by ref m.effects) ≡ ok ds
    → m.mission_key ≢ ""
    → m.effects ≢ []
    → plan rt lookup m ≡ ok (build_plan m.mission_key m.state ds)
unfolding plan
plan-built rt lookup m ds h keyed some_effect =
    ground (arith, eq_iff m.mission_key "", check_plan-passes rt lookup m ds h)

-- Where the loop of `plan` returns, the key is not empty and there are effects, the two checks at
-- its end pass and the plan is built from the decisions of the loop; the four partial amounts add up
-- to the total, the total is that of the effects of the Mission, and there are as many decisions as
-- effects.
pub plan_partition :
    (rt : Runtime) (lookup : AttemptLookup) (m : MissionRecord) (ds : List Decision)
    → decide_all rt lookup m.mission_key m.state [] [] (sort_by ref m.effects) ≡ ok ds
    → m.mission_key ≢ ""
    → m.effects ≢ []
    → (p : ContinuationPlan) × (plan rt lookup m ≡ ok p)
      × (p.decisions ≡ ds)
      × (p.skipped_amount_base_units + p.executable_amount_base_units
            + p.unresolved_amount_base_units + p.manual_review_amount_base_units
          ≡ p.total_amount_base_units)
      × (p.total_amount_base_units ≡ sum_of amount m.effects)
      × (length p.decisions ≡ length m.effects)
unfolding build_plan
plan_partition rt lookup m ds h keyed some_effect =
    let same =
      Pairs-amounts (sort_by ref m.effects) ds
        (decide_all-Pairs rt lookup m.mission_key m.state [] [] (sort_by ref m.effects) ds h) in
    (
      build_plan m.mission_key m.state ds,
      plan-built rt lookup m ds h keyed some_effect,
      refl,
      amounts-partition ds,
      same.0 ∙ sum_of-sort_by ref amount m.effects,
      same.1 ∙ length-sort_by ref m.effects,
    )
