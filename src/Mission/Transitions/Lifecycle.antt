-- ===== src/Mission/Transitions/Lifecycle.antt =====
-- The life of a Mission under the transitions of src/nexus_vector/domain/mission_transitions.py.
use mathlib.Core.Path.{subst}
use nexus_vector_keeperhub.Prelude.{
  ◌≡◌, refl, inl, inr, String, false, ◌==◌, some, List, [], ◌∷◌, arith, All, find, ap, ◌∙◌, sym,
  Bool-cases,
}
use nexus_vector_keeperhub.Errors.{ok}
use nexus_vector_keeperhub.Clock.{Datetime}
use nexus_vector_keeperhub.Runtime.{Runtime}
use nexus_vector_keeperhub.Mission.States.{MissionState, EffectState, effect_allowed}
use nexus_vector_keeperhub.Mission.Records.{EffectRecord, MissionRecord}
use nexus_vector_keeperhub.Mission.Transitions.{transition_mission, transition_mission_effect}
use nexus_vector_keeperhub.Mission.Transitions.Laws.{
  IsConfirmed, make_mission_record-same, transition_mission-Moved,
}
use nexus_vector_keeperhub.Mission.Transitions.Effects.{
  transition_effect-move, transition_mission_effect-EffectStep,
}

module _ (rt : Runtime) where
  -- A confirmed effect is in the state CHAIN_CONFIRMED, from which no move is permitted.
  confirmed_stuck :
      (es : List EffectRecord) (id : String) (e : EffectRecord) (target : EffectState)
      → All IsConfirmed es
      → find (λ (x : EffectRecord). x.effect_id == id) es ≡ some e
      → effect_allowed e.state target ≡ false
  confirmed_stuck [] id e target confirmed found = ground arith
  confirmed_stuck (x ∷ es) id e target confirmed found = elim (Bool-cases (x.effect_id == id)) [
    | inl here ↦
        let same : x ≡ e = ground (arith, here, found) in
        subst (λ (y : EffectRecord). effect_allowed y.state target ≡ false) same
          (rw (confirmed.0) refl)
    | inr other ↦ confirmed_stuck es id e target confirmed.1 (ground (arith, other, found))
  ]

  -- A Mission that is completed has all its effects confirmed.
  abbrev pub IsSettled : MissionRecord → Type 0
  IsSettled r = r.state ≡ MissionState.completed → All IsConfirmed r.effects

  -- The life of a Mission after a record `r`.
  pub data Reach (r : MissionRecord) : MissionRecord → Type 0 where
    start : Reach r r
    mission :
        {s : MissionRecord} (target : MissionState) (at : Datetime) (s' : MissionRecord)
        → Reach r s
        → transition_mission rt s target at ≡ ok s'
        → Reach r s'
    effect :
        {s : MissionRecord} (ref : String) (target : EffectState) (at : Datetime)
        (s' : MissionRecord)
        → Reach r s
        → transition_mission_effect rt s ref target at ≡ ok s'
        → Reach r s'

  Reach-IsSettled : (r s : MissionRecord) → IsSettled r → Reach r s → IsSettled s
  Reach-IsSettled r _ settled Reach.start = settled
  Reach-IsSettled r s' settled (Reach.mission {s} target at _ before steps) = λ done.
      let m = transition_mission-Moved rt s target at s' steps in
      elim m.confirmed [
        | inl other ↦
            absurd (ground (arith, other, ap (λ (x : MissionRecord). x.state) m.result, done))
        | inr confirmed ↦
            subst (All IsConfirmed) (sym (ap (λ (x : MissionRecord). x.effects) m.result)) confirmed
      ]
  Reach-IsSettled r s' settled (Reach.effect {s} ref target at _ before steps) = λ done.
      let step = transition_mission_effect-EffectStep rt s ref target at s' steps in
      let same = make_mission_record-same rt _ step.built in
      let was : s.state ≡ MissionState.completed =
        sym (ap (λ (x : MissionRecord). x.state) same) ∙ done in
      let move = transition_effect-move rt step.selected target step.timestamp step.steps in
      let stuck =
        confirmed_stuck s.effects step.id step.selected target
          (Reach-IsSettled r s settled before was) step.found in
      absurd (ground (arith, move.0, stuck))

  -- Over any sequence of transitions from a Mission that is not completed, or whose effects are all
  -- confirmed, a Mission in the state COMPLETED has every effect confirmed.
  pub completed-IsConfirmed :
      (r : MissionRecord) (s : MissionRecord)
      → IsSettled r
      → Reach r s
      → s.state ≡ MissionState.completed
      → All IsConfirmed s.effects
  completed-IsConfirmed r s settled run done = Reach-IsSettled r s settled run done
