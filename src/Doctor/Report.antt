-- ===== src/Doctor/Report.antt =====
-- When the doctor reports, and what its report rests on.
use mathlib.Core.Path.{subst}
use nexus_vector_keeperhub.Prelude.{
  ℕ, String, ◌≡◌, refl, inl, inr, true, List, [], ◌∷◌, ◌==◌, arith, All, any, all, Bool-cases,
}
use nexus_vector_keeperhub.Errors.{ErrorClass, Code, ok, err, Result-cases}
use nexus_vector_keeperhub.Continuation.{Decision, ContinuationPlan}
use nexus_vector_keeperhub.Doctor.{
  DoctorAction, DiagnosisCode, EffectObservation, EffectDiagnosis, DoctorReport, Observations,
  observed, verdict, diagnose_effect, diagnose_all, overall_action, diagnose,
}
use nexus_vector_keeperhub.Doctor.Verdicts.{verdict_total, verdict-IsPartial}
use nexus_vector_keeperhub.Doctor.Overall.{IsPartial, overall_action-gravest, gravest, of_gravity}

-- A diagnosis is the verdict on a decision and the observation under its effect.
pub record IsDiagnosis (items : Observations) (minimum : ℕ) (d : Decision) (x : EffectDiagnosis)
    : Type 0 where
  pub observation : EffectObservation
  pub shown : observed items d.effect_id ≡ ok observation
  pub effect_ref : x.effect_ref ≡ d.effect_ref
  pub effect_id : x.effect_id ≡ d.effect_id
  pub judged : verdict d.action observation minimum ≡ ok (x.action, x.diagnosis_code)

-- One diagnosis for each decision, in the order of the decisions.
pub data Rows (items : Observations) (minimum : ℕ)
    : List Decision → List EffectDiagnosis → Type 0 where
  no_rows : Rows items minimum [] []
  row :
      {d : Decision} {x : EffectDiagnosis} {ds : List Decision} {xs : List EffectDiagnosis}
      → IsDiagnosis items minimum d x
      → Rows items minimum ds xs
      → Rows items minimum (d ∷ ds) (x ∷ xs)

module _ (items : Observations) (minimum : ℕ) where
  diagnose_effect-made :
      (d : Decision) (o : EffectObservation) (v : DoctorAction × DiagnosisCode)
      → verdict d.action o minimum ≡ ok v
      → diagnose_effect d o minimum
        ≡ ok (record {
          effect_ref = d.effect_ref;
          effect_id = d.effect_id;
          action = v.0;
          diagnosis_code = v.1;
        })
  unfolding diagnose_effect
  diagnose_effect-made d o v judged = rw judged refl

  -- What the loop returns has a row for each decision.
  pub diagnose_all-Rows :
      (ds : List Decision) {xs : List EffectDiagnosis}
      → diagnose_all items minimum ds ≡ ok xs
      → Rows items minimum ds xs
  unfolding diagnose_all
  diagnose_all-Rows [] {xs} h = subst (λ ys. Rows items minimum [] ys) (ground (arith, h)) no_rows
  diagnose_all-Rows (d ∷ ds) {xs} h = elim (Result-cases (observed items d.effect_id)) [
    | inl (e, missing) ↦ absurd (ground (arith, h, missing))
    | inr (o, shown) ↦
        let (v, judged) = verdict_total d.action o minimum in
        let x : EffectDiagnosis = record {
          effect_ref = d.effect_ref;
          effect_id = d.effect_id;
          action = v.0;
          diagnosis_code = v.1;
        } in
        let made = diagnose_effect-made d o v judged in
        elim (Result-cases (diagnose_all items minimum ds)) [
          | inl (e, bad) ↦ absurd (ground (arith, h, shown, made, bad))
          | inr (ys, rest) ↦
              subst (λ zs. Rows items minimum (d ∷ ds) zs) (ground (arith, h, shown, made, rest))
                (row {x = x}
                  (record {
                    observation = o;
                    shown = shown;
                    effect_ref = refl;
                    effect_id = refl;
                    judged = judged;
                  })
                  (diagnose_all-Rows ds rest))
        ]
  ]

  -- The loop returns where every effect was observed.
  pub diagnose_all-returns :
      (ds : List Decision)
      → All (λ (d : Decision). (o : EffectObservation) × (observed items d.effect_id ≡ ok o)) ds
      → (xs : List EffectDiagnosis) × (diagnose_all items minimum ds ≡ ok xs)
  unfolding diagnose_all
  diagnose_all-returns [] h = ([], refl)
  diagnose_all-returns (d ∷ ds) ((o, shown), rest) =
      let (v, judged) = verdict_total d.action o minimum in
      let made = diagnose_effect-made d o v judged in
      let (xs, returned) = diagnose_all-returns ds rest in
      (
        record {
          effect_ref = d.effect_ref;
          effect_id = d.effect_id;
          action = v.0;
          diagnosis_code = v.1;
        }
            ∷ xs,
        rw (shown, made, returned) refl,
      )

  pub Rows-IsPartial :
      {ds : List Decision} {xs : List EffectDiagnosis} → Rows items minimum ds xs → All IsPartial xs
  Rows-IsPartial no_rows = tt
  Rows-IsPartial (row r rest) =
      (verdict-IsPartial _ r.observation minimum r.judged, Rows-IsPartial rest)

  observed_where :
      (key : String) (xs : Observations)
      → any (λ (item : String × EffectObservation). item.0 == key) xs ≡ true
      → (o : EffectObservation) × (observed xs key ≡ ok o)
  unfolding observed
  observed_where key [] h = absurd (ground (arith, h))
  observed_where key (x ∷ xs) h = elim (Bool-cases (x.0 == key)) [
    | inl hit ↦ (x.1, ground (arith, hit))
    | inr other ↦
        let (o, found) = observed_where key xs (ground (arith, h, other)) in
        (o, ground (arith, other, found))
  ]

  pub all-observed :
      (ds : List Decision)
      → all
          (λ (d : Decision).
            any (λ (item : String × EffectObservation). item.0 == d.effect_id) items)
          ds
        ≡ true
      → All (λ (d : Decision). (o : EffectObservation) × (observed items d.effect_id ≡ ok o)) ds
  all-observed [] h = tt
  all-observed (d ∷ ds) h =
      (observed_where d.effect_id items (ground (arith, h)), all-observed ds (ground (arith, h)))

overall_action_empty :
    overall_action [] ≡ err (record { class = ErrorClass.doctor; code = Code.empty_diagnoses })
unfolding overall_action
overall_action_empty = refl

-- What a report says of the plan and the observations that it was made from.
pub record Reports (p : ContinuationPlan) (items : Observations) (minimum : ℕ) (r : DoctorReport)
    : Type 0 where
  pub mission_key : r.mission_key ≡ p.mission_key
  pub rows : Rows items minimum p.decisions r.diagnoses
  pub gravest_action : r.next_action ≡ of_gravity (gravest r.diagnoses)

module _ (p : ContinuationPlan) (items : Observations) (minimum : ℕ) where
  pub diagnose-Reports :
      {r : DoctorReport} → diagnose p items minimum ≡ ok r → Reports p items minimum r
  unfolding diagnose
  diagnose-Reports {r} h = elim (Result-cases (diagnose_all items minimum p.decisions)) [
    | inl (e, bad) ↦ absurd (ground (arith, h, bad))
    | inr ([], none_made) ↦ absurd (ground (arith, h, none_made, overall_action_empty))
    | inr (x ∷ xs, made) ↦
        let rows = diagnose_all-Rows items minimum p.decisions made in
        let overall = overall_action-gravest x xs (Rows-IsPartial items minimum rows) in
        record {
          mission_key = ground (arith, h, made, overall);
          rows =
              subst (λ ys. Rows items minimum p.decisions ys) (ground (arith, h, made, overall))
                rows;
          gravest_action = ground (arith, h, made, overall);
        }
  ]
