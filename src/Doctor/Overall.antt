-- ===== src/Doctor/Overall.antt =====
-- The action of a report is the gravest one of its diagnoses.
use nexus_vector_keeperhub.Prelude.{
  ℕ, ◌≡◌, ◌≢◌, refl, Bool, true, false, List, [], ◌∷◌, ltb, all, arith, All, if◌then◌else◌,
}
use nexus_vector_keeperhub.Errors.{Result, ok}
use nexus_vector_keeperhub.Doctor.{
  DoctorAction, EffectDiagnosis, among, same_verdict, overall_action,
}

-- How grave an action is: what a caller has to attend to first has the greatest number.
abbrev pub gravity : DoctorAction → ℕ
gravity DoctorAction.skip_verified = 0
gravity DoctorAction.complete = 0
gravity DoctorAction.execute_missing = 1
gravity DoctorAction.reconcile = 2
gravity DoctorAction.wait_for_confirmations = 3
gravity DoctorAction.manual_review = 4

abbrev pub gravest : List EffectDiagnosis → ℕ
gravest [] = 0
gravest (d ∷ ds) = if ltb (gravest ds) (gravity d.action) then gravity d.action else gravest ds

-- The action that stands for the gravest one of a report.
abbrev pub of_gravity : ℕ → DoctorAction
of_gravity g =
    if ltb 3 g
    then DoctorAction.manual_review
    else if ltb 2 g
    then DoctorAction.wait_for_confirmations
    else if ltb 1 g
    then DoctorAction.reconcile
    else if ltb 0 g
    then DoctorAction.execute_missing
    else DoctorAction.complete

-- COMPLETE is not an action of one effect.
abbrev pub IsPartial : EffectDiagnosis → Type 0
IsPartial d = d.action ≢ DoctorAction.complete

-- The four tests of the loop and the one after it, by the gravest action.
record Tally (ds : List EffectDiagnosis) : Type 0 where
  manual : among DoctorAction.manual_review ds ≡ ltb 3 (gravest ds)
  waits :
      ltb 3 (gravest ds) ≡ false → among DoctorAction.wait_for_confirmations ds ≡ ltb 2 (gravest ds)
  reconciles : ltb 2 (gravest ds) ≡ false → among DoctorAction.reconcile ds ≡ ltb 1 (gravest ds)
  executes : ltb 1 (gravest ds) ≡ false → among DoctorAction.execute_missing ds ≡ ltb 0 (gravest ds)
  skips :
      ltb 0 (gravest ds) ≡ false
      → all (λ (x : EffectDiagnosis). same_verdict x.action DoctorAction.skip_verified) ds ≡ true

gravest-Tally : (ds : List EffectDiagnosis) → All IsPartial ds → Tally ds
gravest-Tally [] h = record {
  manual = refl;
  waits = λ x. refl;
  reconciles = λ x. refl;
  executes = λ x. refl;
  skips = λ x. refl;
}
gravest-Tally (d ∷ ds) h =
    let rest = gravest-Tally ds h.1 in
    let partial = h.0 in
    record {
      manual = ground (arith, rest.manual);
      waits = λ x. ground (arith, x, rest.waits);
      reconciles = λ x. ground (arith, x, rest.reconciles);
      executes = λ x. ground (arith, x, rest.executes);
      skips = λ x. ground (arith, x, rest.skips, partial);
    }

chain_value :
    (m w r e s : Bool) (g : ℕ) (other : Result DoctorAction)
    → m ≡ ltb 3 g
    → (ltb 3 g ≡ false → w ≡ ltb 2 g)
    → (ltb 2 g ≡ false → r ≡ ltb 1 g)
    → (ltb 1 g ≡ false → e ≡ ltb 0 g)
    → (ltb 0 g ≡ false → s ≡ true)
    → (if m
        then ok DoctorAction.manual_review
        else if w
        then ok DoctorAction.wait_for_confirmations
        else if r
        then ok DoctorAction.reconcile
        else if e
        then ok DoctorAction.execute_missing
        else if s
        then ok DoctorAction.complete
        else other)
      ≡ ok (of_gravity g)
chain_value m w r e s g other hm hw hr he hs = ground arith

-- The action of a report is the one that stands for the gravest of its diagnoses; it is COMPLETE
-- where all effects are skipped.
pub overall_action-gravest :
    (d : EffectDiagnosis) (ds : List EffectDiagnosis)
    → All IsPartial (d ∷ ds)
    → overall_action (d ∷ ds) ≡ ok (of_gravity (gravest (d ∷ ds)))
unfolding overall_action
overall_action-gravest d ds h =
    let t = gravest-Tally (d ∷ ds) h in
    chain_value (among DoctorAction.manual_review (d ∷ ds))
      (among DoctorAction.wait_for_confirmations (d ∷ ds)) (among DoctorAction.reconcile (d ∷ ds))
      (among DoctorAction.execute_missing (d ∷ ds))
      (all (λ (x : EffectDiagnosis). same_verdict x.action DoctorAction.skip_verified) (d ∷ ds))
      (gravest (d ∷ ds)) _ t.manual t.waits t.reconciles t.executes t.skips
