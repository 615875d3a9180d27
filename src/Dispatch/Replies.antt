-- ===== src/Dispatch/Replies.antt =====
-- What `dispatch` comes back with before the call of the port.
use nexus_vector_keeperhub.Prelude.{
  ◌≡◌, refl, sym, ap, ◌∙◌, inl, inr, Option, none, some, arith, Option-cases, find, ◌==◌,
}
use nexus_vector_keeperhub.Errors.{ErrorClass, Result, ok, err, Result-cases}
use nexus_vector_keeperhub.Clock.{Datetime, require_utc-cases}
use nexus_vector_keeperhub.Runtime.{Runtime}
use nexus_vector_keeperhub.Mission.States.{
  MissionState, EffectState, same_mission_state→≡, same_effect_state→≡,
}
use nexus_vector_keeperhub.Mission.Records.{StoredMission, EffectRecord}
use nexus_vector_keeperhub.Attempt.{
  AttemptPlan, AttemptRecord, create_initial_execution_attempt, derive_attempt_id,
}
use nexus_vector_keeperhub.Attempt.States.{AttemptState}
use nexus_vector_keeperhub.Attempt.Moves.{make_record-same}
use nexus_vector_keeperhub.Persistence.AttemptStore.{StoredAttempt, initialize, create}
use nexus_vector_keeperhub.Persistence.AttemptStore.Progress.{create-id}
use nexus_vector_keeperhub.Dispatch.{World, check_mission, check_effect, prepare}

-- The Mission is ready and its effect is planned.
pub record IsReady (plan : AttemptPlan) (found : Result (Option StoredMission)) : Type 0 where
  pub mission : StoredMission
  pub is_found : found ≡ ok (some mission)
  pub ready : mission.entry.state ≡ MissionState.ready_for_execution
  pub effect : EffectRecord
  pub is_effect :
      find (λ item. item.effect_id == plan.effect_id) mission.entry.effects ≡ some effect
  pub planned : effect.state ≡ EffectState.planned

check_mission-IsReady :
    (plan : AttemptPlan) (found : Result (Option StoredMission))
    → check_mission plan found ≡ ok tt
    → IsReady plan found
unfolding check_mission check_effect
check_mission-IsReady plan (err e) h = absurd (cc)
check_mission-IsReady plan (ok none) h = absurd (cc)
check_mission-IsReady plan (ok (some m)) h =
    elim (Option-cases (find (λ item. item.effect_id == plan.effect_id) m.entry.effects)) [
      | inl missing ↦ absurd (ground arith)
      | inr (effect, there) ↦ record {
        mission = m;
        is_found = refl;
        ready = same_mission_state→≡ m.entry.state MissionState.ready_for_execution (ground arith);
        effect = effect;
        is_effect = there;
        planned = same_effect_state→≡ effect.state EffectState.planned (ground arith);
      }
    ]

create_initial-id :
    (rt : Runtime) (plan : AttemptPlan) (at : Datetime) {r : AttemptRecord}
    → create_initial_execution_attempt rt plan at ≡ ok r
    → derive_attempt_id rt plan.effect_id ≡ ok r.attempt_id
unfolding create_initial_execution_attempt
create_initial-id rt plan at {r} h = elim (require_utc-cases ErrorClass.attempt at) [
  | inr (e, bad) ↦ absurd (ground arith)
  | inl good ↦ elim (Result-cases (derive_attempt_id rt plan.effect_id)) [
    | inl (e, underivable) ↦ absurd (ground arith)
    | inr (id, derived) ↦
        let built : AttemptRecord = record {
          attempt_id = id;
          plan = plan;
          state = AttemptState.prepared;
          created_at_utc = at;
          updated_at_utc = at;
        } in
        let same' : r ≡ built = make_record-same rt built (ground arith) in
        derived ∙ ap ok (sym (ap (λ (x : AttemptRecord). x.attempt_id) same'))
  ]
]

module _ {P : Type 0} (rt : Runtime) where
  pub prepare-result :
      (plan : AttemptPlan) (found : Result (Option StoredMission)) (at : Datetime) (w : World P)
      {s : StoredAttempt}
      → (prepare rt plan found at w).0 ≡ ok s
      → IsReady plan found
        × (derive_attempt_id rt plan.effect_id ≡ ok s.entry.attempt_id)
        × (s.entry.state ≡ AttemptState.prepared)
  unfolding prepare
  prepare-result plan found at w {s} h = elim (Result-cases (check_mission plan found)) [
    | inl (e, refused) ↦ absurd (ground arith)
    | inr (u, checked) ↦ elim (Result-cases (create_initial_execution_attempt rt plan at)) [
      | inl (e, refused) ↦ absurd (ground arith)
      | inr (r, initial) ↦ elim (Result-cases (create rt r (initialize w.attempts).1).0) [
        | inl (e, refused) ↦ absurd (ground arith)
        | inr (c, made) ↦
            let same' : c ≡ s = ground arith in
            let named : s.entry.attempt_id ≡ r.attempt_id =
              ap (λ (x : StoredAttempt). x.entry.attempt_id) (sym same')
              ∙ create-id rt r (initialize w.attempts).1 made in
            (
              check_mission-IsReady plan found checked,
              create_initial-id rt plan at initial ∙ ap ok (sym named),
              ground arith,
            )
      ]
    ]
  ]
