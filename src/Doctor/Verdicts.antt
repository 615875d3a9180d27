-- ===== src/Doctor/Verdicts.antt =====
-- What the doctor makes of one effect.
use nexus_vector_keeperhub.Prelude.{ℕ, ◌≡◌, ◌≢◌, ◌↔◌, ◌⊎◌, inl, inr, ◌≤◌, arith}
use nexus_vector_keeperhub.Errors.{ok, Result-cases}
use nexus_vector_keeperhub.Continuation.{Action}
use nexus_vector_keeperhub.Doctor.{
  ProviderState, ChainState, DoctorAction, DiagnosisCode, EffectObservation, verdict,
}

-- Neither the provider nor the chain shows, or may hide, an execution of the effect.
abbrev pub IsWithoutEvidence : EffectObservation → Type 0
IsWithoutEvidence o =
    ((o.provider_state ≡ ProviderState.not_queried) ⊎ (o.provider_state ≡ ProviderState.not_found))
    × ((o.chain_state ≡ ChainState.not_queried) ⊎ (o.chain_state ≡ ChainState.not_found))

-- The planner skips the effect, and no observation speaks against that.
abbrev pub IsSettled : Action → EffectObservation → ℕ → Type 0
IsSettled a o minimum =
    (a ≡ Action.skip_verified)
    × (o.chain_state ≢ ChainState.mismatch)
    × (o.chain_state ≢ ChainState.not_found)
    × (o.provider_state ≢ ProviderState.rejected_final)
    × (o.chain_state ≡ ChainState.confirmed → minimum ≤ o.confirmations)

-- Every combination of states has a verdict.
pub verdict_total :
    (a : Action) (o : EffectObservation) (minimum : ℕ)
    → (v : DoctorAction × DiagnosisCode) × (verdict a o minimum ≡ ok v)
unfolding verdict
verdict_total a o minimum = elim (Result-cases (verdict a o minimum)) [
  | inl (e, bad) ↦ absurd (ground arith)
  | inr found ↦ found
]

-- An effect is given for execution exactly when the planner gives it and nothing is observed of it.
pub verdict-executes :
    (a : Action) (o : EffectObservation) (minimum : ℕ) {v : DoctorAction × DiagnosisCode}
    → verdict a o minimum ≡ ok v
    → (v.0 ≡ DoctorAction.execute_missing) ↔ ((a ≡ Action.execute_missing) × IsWithoutEvidence o)
unfolding verdict
verdict-executes a o minimum h = (λ x. ground arith, λ x. ground arith)

-- An effect is skipped only where the planner skips it, the chain does not contradict it, and
-- what the chain confirms has the confirmations asked for.
pub verdict-skips :
    (a : Action) (o : EffectObservation) (minimum : ℕ) {v : DoctorAction × DiagnosisCode}
    → verdict a o minimum ≡ ok v
    → v.0 ≡ DoctorAction.skip_verified
    → IsSettled a o minimum
unfolding verdict
verdict-skips a o minimum h x =
    (ground arith, ground arith, ground arith, ground arith, λ c. ground arith)

pub verdict-IsPartial :
    (a : Action) (o : EffectObservation) (minimum : ℕ) {x : DoctorAction} {c : DiagnosisCode}
    → verdict a o minimum ≡ ok (x, c)
    → x ≢ DoctorAction.complete
unfolding verdict
verdict-IsPartial a o minimum h bad = ground arith
