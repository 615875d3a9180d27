-- ===== src/Doctor/Safety.antt =====
-- That the doctor always answers, and that what it hands out for execution is safe to execute.
use mathlib.Core.Path.{subst}
use nexus_vector_keeperhub.Prelude.{
  ℕ, ◌≡◌, ◌≢◌, refl, sym, ap, ◌∙◌, ◌⊎◌, inl, inr, false, List, [], ◌∷◌, ◌≤◌, arith, All,
}
use nexus_vector_keeperhub.Errors.{ok, Result-cases}
use nexus_vector_keeperhub.Runtime.{Runtime}
use nexus_vector_keeperhub.Mission.States.{MissionState}
use nexus_vector_keeperhub.Mission.Records.{MissionRecord}
use nexus_vector_keeperhub.Continuation.{Decision, ContinuationPlan, AttemptLookup, plan}
use nexus_vector_keeperhub.Continuation.Safety.{IsSafe, IsUnsent, plan-IsSafe}
use nexus_vector_keeperhub.Doctor.{
  DoctorAction, EffectObservation, EffectDiagnosis, DoctorReport, Observations, observed, differ,
  mislabelled, overall_action, diagnose,
}
use nexus_vector_keeperhub.Doctor.Verdicts.{
  IsWithoutEvidence, IsSettled, verdict-executes, verdict-skips,
}
use nexus_vector_keeperhub.Doctor.Overall.{overall_action-gravest, gravest, of_gravity, IsPartial}
use nexus_vector_keeperhub.Doctor.Report.{
  IsDiagnosis, Rows, no_rows, row, Reports, diagnose_all-Rows, diagnose_all-returns, all-observed,
  Rows-IsPartial, diagnose-Reports,
}

observations_found :
    (p : ContinuationPlan) (items : Observations)
    → differ items p.decisions ≡ false
    → All
        (λ (d : Decision). (o : EffectObservation) × (observed items d.effect_id ≡ ok o))
        p.decisions
unfolding differ
observations_found p items h = all-observed items 0 p.decisions (ground (arith, h))

-- Rows that are not empty have an action.
Rows-answered :
    {items : Observations} {minimum : ℕ} (ds : List Decision) (xs : List EffectDiagnosis)
    → ds ≢ []
    → Rows items minimum ds xs
    → ((a : DoctorAction) → overall_action xs ≢ ok a)
    → ⊥
Rows-answered [] [] filled no_rows silent = filled refl
Rows-answered [] (x ∷ xs) filled rows silent = elim rows [ ]
Rows-answered (d ∷ ds) [] filled rows silent = elim rows [ ]
Rows-answered (d ∷ ds) (x ∷ xs) filled (row r rest) silent =
    silent _ (overall_action-gravest x xs (Rows-IsPartial _ _ (row r rest)))

module _ (p : ContinuationPlan) (items : Observations) (minimum : ℕ) where
  -- The doctor reports on every plan that has decisions, where at least one confirmation is asked for
  -- and the observations are those of the effects of the plan, each under its own key. The report has
  -- one diagnosis for each decision, in order, which is the verdict on it and its observation, and the
  -- action of the report is the gravest of theirs.
  pub diagnose_returns :
      p.decisions ≢ []
      → 1 ≤ minimum
      → differ items p.decisions ≡ false
      → mislabelled items ≡ false
      → (r : DoctorReport) × (diagnose p items minimum ≡ ok r) × Reports p items minimum r
  unfolding diagnose
  diagnose_returns some_effects positive same_keys labelled =
      let (xs, made) =
        diagnose_all-returns items minimum p.decisions (observations_found p items same_keys) in
      elim (Result-cases (diagnose p items minimum)) [
        | inr (r, reported) ↦ (r, reported, diagnose-Reports p items minimum reported)
        | inl (e, bad) ↦ absurd (
            Rows-answered p.decisions xs some_effects
              (diagnose_all-Rows items minimum p.decisions made)
              (λ a answered. ground (arith, bad, positive, same_keys, labelled, made, answered)))
      ]

-- A diagnosis hands its effect out for execution only where it was not sent and nothing shows it.
abbrev pub IsSafeDiagnosis :
    Runtime → AttemptLookup → MissionState → Observations → EffectDiagnosis → Type 0
IsSafeDiagnosis rt lookup m items x =
    x.action ≡ DoctorAction.execute_missing
    → ((m ≡ MissionState.ready_for_execution) ⊎ (m ≡ MissionState.reconciling))
      × IsUnsent rt lookup x.effect_id
      × ((o : EffectObservation) × (observed items x.effect_id ≡ ok o) × IsWithoutEvidence o)

module _ (rt : Runtime) (lookup : AttemptLookup) (m : MissionState) (items : Observations)
    (minimum : ℕ) where
  IsDiagnosis-IsSafeDiagnosis :
      (d : Decision) (x : EffectDiagnosis)
      → IsDiagnosis items minimum d x
      → IsSafe rt lookup m d
      → IsSafeDiagnosis rt lookup m items x
  IsDiagnosis-IsSafeDiagnosis d x r safe executes =
      let why = (verdict-executes d.action r.observation minimum r.judged).0 executes in
      let (ready, unsent) = safe why.0 in
      (
        ready,
        subst (λ id. IsUnsent rt lookup id) (sym r.effect_id) unsent,
        (r.observation, ap (λ id. observed items id) r.effect_id ∙ r.shown, why.1),
      )

  Rows-IsSafeDiagnosis :
      (ds : List Decision) (xs : List EffectDiagnosis)
      → Rows items minimum ds xs
      → All (IsSafe rt lookup m) ds
      → All (IsSafeDiagnosis rt lookup m items) xs
  Rows-IsSafeDiagnosis [] [] no_rows h = tt
  Rows-IsSafeDiagnosis [] (x ∷ xs) rows h = elim rows [ ]
  Rows-IsSafeDiagnosis (d ∷ ds) [] rows h = elim rows [ ]
  Rows-IsSafeDiagnosis (d ∷ ds) (x ∷ xs) (row r rest) h =
      (IsDiagnosis-IsSafeDiagnosis d x r h.0, Rows-IsSafeDiagnosis ds xs rest h.1)

-- Where the doctor reports on a plan of the planner, every effect that it hands out for execution
-- belongs to a Mission that is READY_FOR_EXECUTION or RECONCILING, the lookup found no attempt of
-- it or one that is PREPARED, and its observation shows neither the provider nor the chain to hold,
-- or perhaps hold, an execution of it.
pub diagnose-IsSafeDiagnosis :
    (rt : Runtime) (lookup : AttemptLookup) (m : MissionRecord) (p : ContinuationPlan)
    (items : Observations) (minimum : ℕ) (r : DoctorReport)
    → plan rt lookup m ≡ ok p
    → diagnose p items minimum ≡ ok r
    → All (IsSafeDiagnosis rt lookup m.state items) r.diagnoses
diagnose-IsSafeDiagnosis rt lookup m p items minimum r planned reported =
    Rows-IsSafeDiagnosis rt lookup m.state items minimum p.decisions r.diagnoses
      (diagnose-Reports p items minimum reported).rows (plan-IsSafe rt lookup m p planned).1

gravest-skips :
    (xs : List EffectDiagnosis)
    → All IsPartial xs
    → of_gravity (gravest xs) ≡ DoctorAction.complete
    → All (λ (x : EffectDiagnosis). x.action ≡ DoctorAction.skip_verified) xs
gravest-skips [] partial h = tt
gravest-skips (x ∷ xs) partial h =
    let here = partial.0 in
    (ground (arith, h, here), gravest-skips xs partial.1 (ground (arith, h)))

Rows-IsSettled :
    {items : Observations} (minimum : ℕ) (ds : List Decision) (xs : List EffectDiagnosis)
    → Rows items minimum ds xs
    → All (λ (x : EffectDiagnosis). x.action ≡ DoctorAction.skip_verified) xs
    → All
        (λ (d : Decision).
          (o : EffectObservation) × (observed items d.effect_id ≡ ok o)
          × IsSettled d.action o minimum)
        ds
Rows-IsSettled minimum [] [] no_rows h = tt
Rows-IsSettled minimum [] (x ∷ xs) rows h = elim rows [ ]
Rows-IsSettled minimum (d ∷ ds) [] rows h = elim rows [ ]
Rows-IsSettled minimum (d ∷ ds) (x ∷ xs) (row r rest) h = (
  (r.observation, r.shown, verdict-skips d.action r.observation minimum r.judged h.0),
  Rows-IsSettled minimum ds xs rest h.1,
)

-- A report that says COMPLETE: the planner skips every effect as verified, the chain was not
-- observed to lack any of them or to hold another transfer for it, the provider was not observed to have
-- rejected it, and what the chain confirms has as many confirmations as asked for.
pub diagnose_complete :
    (p : ContinuationPlan) (items : Observations) (minimum : ℕ) (r : DoctorReport)
    → diagnose p items minimum ≡ ok r
    → r.next_action ≡ DoctorAction.complete
    → All
        (λ (d : Decision).
          (o : EffectObservation) × (observed items d.effect_id ≡ ok o)
          × IsSettled d.action o minimum)
        p.decisions
diagnose_complete p items minimum r reported complete =
    let facts = diagnose-Reports p items minimum reported in
    Rows-IsSettled minimum p.decisions r.diagnoses facts.rows (
      gravest-skips r.diagnoses (Rows-IsPartial items minimum facts.rows)
        (sym facts.gravest_action ∙ complete))
