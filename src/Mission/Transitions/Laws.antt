-- ===== src/Mission/Transitions/Laws.antt =====
-- The transitions of src/nexus_vector/domain/mission_transitions.py.
use nexus_vector_keeperhub.Prelude.{
  ◌≤◌, ◌≡◌, ◌⊎◌, inl, inr, true, false, List, [], ◌∷◌, arith, All, any, ap, ◌∙◌, Bool-cases,
}
use nexus_vector_keeperhub.Errors.{ErrorClass, ok, Result-cases}
use nexus_vector_keeperhub.Clock.{Datetime, require_utc, require_utc-same}
use nexus_vector_keeperhub.Runtime.{Runtime}
use nexus_vector_keeperhub.Mission.States.{
  MissionState, EffectState, mission_allowed, same_mission_state, same_effect_state→≡,
}
use nexus_vector_keeperhub.Mission.Records.{EffectRecord, MissionRecord}
use nexus_vector_keeperhub.Mission.Models.{make_mission_record}
use nexus_vector_keeperhub.Mission.Transitions.{
  transition_mission, require_not_earlier, is_unconfirmed,
}

-- An effect that the chain has confirmed.
abbrev pub IsConfirmed : EffectRecord → Type 0
IsConfirmed e = e.state ≡ EffectState.chain_confirmed

-- A Mission that its constructor accepts as it is.
abbrev pub IsWellFormed : Runtime → MissionRecord → Type 0
IsWellFormed rt r = make_mission_record rt r ≡ ok r

pub require_not_earlier-ok :
    (t now : Datetime) {u : Datetime}
    → require_not_earlier t now ≡ ok u
    → (u ≡ t) × (now.instant ≤ t.instant)
unfolding require_not_earlier
require_not_earlier-ok t now h = elim (Result-cases (require_utc ErrorClass.mission_transition t)) [
  | inl (e, he) ↦ absurd (ground (arith, h, he))
  | inr (c, hc) ↦ ground (arith, h, hc, require_utc-same ErrorClass.mission_transition t hc)
]

not_any_unconfirmed : (es : List EffectRecord) → any is_unconfirmed es ≡ false → All IsConfirmed es
not_any_unconfirmed [] h = tt
not_any_unconfirmed (e ∷ es) h = (
  same_effect_state→≡ e.state EffectState.chain_confirmed (ground arith),
  not_any_unconfirmed es (ground arith),
)

module _ (rt : Runtime) where
  -- The constructor checks a Mission and does not change it.
  pub make_mission_record-same :
      (r : MissionRecord) {s : MissionRecord} → make_mission_record rt r ≡ ok s → s ≡ r
  unfolding make_mission_record
  make_mission_record-same r h = ground arith

  -- What `transition_mission` has done where it returns `s`.
  pub record Moved (r : MissionRecord) (target : MissionState) (at : Datetime) (s : MissionRecord)
      : Type 0 where
    pub permitted : mission_allowed r.state target ≡ true
    pub result : s ≡ record r { state = target; updated_at_utc = at }
    pub not_earlier : r.updated_at_utc.instant ≤ at.instant
    pub confirmed :
        (same_mission_state target MissionState.completed ≡ false) ⊎ All IsConfirmed r.effects
    pub well_formed : IsWellFormed rt s

  -- A transition of a Mission that returns was permitted by the table; its result is the Mission with
  -- the new state and with the given time as that of the last change, all else as it was; the time is
  -- not before the last change; a Mission is completed only where all of its effects are confirmed; and
  -- the constructor accepts the result.
  pub transition_mission-Moved :
      (r : MissionRecord) (target : MissionState) (at : Datetime) (s : MissionRecord)
      → transition_mission rt r target at ≡ ok s
      → Moved r target at s
  unfolding transition_mission
  transition_mission-Moved r target at s h =
      elim (Result-cases (require_not_earlier at r.updated_at_utc)) [
        | inl (e, early) ↦ absurd (ground (arith, h, early))
        | inr (t, timely) ↦
            let built : make_mission_record rt (record r { state = target; updated_at_utc = t })
                ≡ ok s =
              ground (arith, h, timely) in
            let same =
              make_mission_record-same (record r { state = target; updated_at_utc = t }) built in
            let stamp = require_not_earlier-ok at r.updated_at_utc timely in
            record {
              permitted = ground (arith, h, timely);
              result =
                  same
                  ∙ ap (λ (u : Datetime). record r { state = target; updated_at_utc = u }) stamp.0;
              not_earlier = stamp.1;
              confirmed = elim (Bool-cases (same_mission_state target MissionState.completed)) [
                | inr other ↦ inl other
                | inl completes ↦
                    inr (not_any_unconfirmed r.effects (ground (arith, h, timely, completes)))
              ];
              well_formed = ap (make_mission_record rt) same ∙ built;
            }
      ]
