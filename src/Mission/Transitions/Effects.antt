-- ===== src/Mission/Transitions/Effects.antt =====
-- The transition of one effect of a Mission, in src/nexus_vector/domain/mission_transitions.py.
use mathlib.Core.Path.{subst}
use nexus_vector_keeperhub.Prelude.{
  ◌≡◌, ◌⊎◌, inl, inr, String, true, false, ◌==◌, some, List, [], ◌∷◌, arith, any, find, ap, ◌∙◌,
  sym, eq_iff, Option-cases, Bool-cases,
}
use nexus_vector_keeperhub.Errors.{ok, Result-cases}
use nexus_vector_keeperhub.Clock.{Datetime}
use nexus_vector_keeperhub.Runtime.{Runtime}
use nexus_vector_keeperhub.Mission.States.{EffectState, effect_allowed}
use nexus_vector_keeperhub.Mission.Records.{EffectRecord, MissionRecord}
use nexus_vector_keeperhub.Mission.Models.{make_effect_record, make_mission_record, effect_id_for}
use nexus_vector_keeperhub.Mission.Transitions.{
  transition_effect, transition_mission_effect, require_not_earlier, replace_effect,
}
use nexus_vector_keeperhub.Mission.Transitions.Laws.{IsWellFormed, make_mission_record-same}

-- No two effects have one identifier.
abbrev pub DistinctIds : List EffectRecord → Type 0
DistinctIds [] = Unit
DistinctIds (e ∷ es) =
    (any (λ (x : EffectRecord). x.effect_id == e.effect_id) es ≡ false) × DistinctIds es

module _ (rt : Runtime) where
  -- The constructor keeps the identifier and the state of an effect.
  make_effect_record-keeps :
      (e : EffectRecord) {s : EffectRecord}
      → make_effect_record rt e ≡ ok s
      → (s.effect_id ≡ e.effect_id)
        × (s.state ≡ e.state)
        × (s.amount_base_units ≡ e.amount_base_units)
  unfolding make_effect_record
  make_effect_record-keeps e h = ground arith

  -- An effect as it was, or moved along one entry of the table, with its identifier and amount.
  abbrev pub EffectMove : EffectRecord → EffectRecord → Type 0
  EffectMove e f =
      (f ≡ e)
      ⊎ (effect_allowed e.state f.state ≡ true)
        × (f.effect_id ≡ e.effect_id)
        × (f.amount_base_units ≡ e.amount_base_units)

  abbrev pub EffectMoves : List EffectRecord → List EffectRecord → Type 0
  EffectMoves [] [] = Unit
  EffectMoves (e ∷ es) (f ∷ fs) = EffectMove e f × EffectMoves es fs
  EffectMoves _ _ = ⊥

  pub transition_effect-move :
      (e : EffectRecord) (target : EffectState) (at : Datetime) {f : EffectRecord}
      → transition_effect rt e target at ≡ ok f
      → (effect_allowed e.state target ≡ true)
        × (f.state ≡ target)
        × (f.effect_id ≡ e.effect_id)
        × (f.amount_base_units ≡ e.amount_base_units)
  unfolding transition_effect
  transition_effect-move e target at {f} h =
      elim (Result-cases (require_not_earlier at e.updated_at_utc)) [
        | inl (x, early) ↦ absurd (ground (arith, h, early))
        | inr (t, timely) ↦
            let built : make_effect_record rt (record e { state = target; updated_at_utc = t })
                ≡ ok f =
              ground (arith, h, timely) in
            let kept =
              make_effect_record-keeps (record e { state = target; updated_at_utc = t }) built in
            (ground (arith, h, timely), kept.1, kept.0, kept.2)
      ]

  replace_effect-absent :
      (id : String) (f : EffectRecord) (es : List EffectRecord)
      → any (λ (x : EffectRecord). x.effect_id == id) es ≡ false
      → EffectMoves es (replace_effect id f es)
  replace_effect-absent id f [] h = tt
  replace_effect-absent id f (e ∷ es) h =
      (inl (ground arith), replace_effect-absent id f es (ground arith))

  replace_effect-moves :
      (id : String) (e f : EffectRecord) (es : List EffectRecord)
      → DistinctIds es
      → find (λ (x : EffectRecord). x.effect_id == id) es ≡ some e
      → EffectMove e f
      → EffectMoves es (replace_effect id f es)
  replace_effect-moves id e f [] distinct found move = tt
  replace_effect-moves id e f (x ∷ es) distinct found move = elim (Bool-cases (x.effect_id == id)) [
    | inl here ↦
        let same : x ≡ e = ground (arith, here, found) in
        (
          rw here (subst (λ y. EffectMove y f) (sym same) move),
          replace_effect-absent id f es (
              subst (λ i. any (λ (y : EffectRecord). y.effect_id == i) es ≡ false)
                (ground (arith, here, eq_iff x.effect_id id)) distinct.0),
        )
    | inr other ↦ (ground arith, replace_effect-moves id e f es distinct.1 (ground arith) move)
  ]

  -- The steps of `transition_mission_effect` where it returns.
  pub record EffectStep (r : MissionRecord) (target : EffectState) (s : MissionRecord)
      : Type 0 where
    pub id : String
    pub timestamp : Datetime
    pub selected : EffectRecord
    pub moved : EffectRecord
    pub found : find (λ (e : EffectRecord). e.effect_id == id) r.effects ≡ some selected
    pub steps : transition_effect rt selected target timestamp ≡ ok moved
    pub built :
        make_mission_record rt
          (record r { effects = replace_effect id moved r.effects; updated_at_utc = timestamp })
        ≡ ok s

  pub transition_mission_effect-EffectStep :
      (r : MissionRecord) (ref : String) (target : EffectState) (at : Datetime) (s : MissionRecord)
      → transition_mission_effect rt r ref target at ≡ ok s
      → EffectStep r target s
  unfolding transition_mission_effect
  transition_mission_effect-EffectStep r ref target at s h =
      elim (Result-cases (require_not_earlier at r.updated_at_utc)) [
        | inl (x, early) ↦ absurd (ground (arith, h, early))
        | inr (t, timely) ↦ elim (Result-cases (effect_id_for rt r ref)) [
          | inl (x, unknown) ↦ absurd (ground (arith, h, timely, unknown))
          | inr (id, known) ↦
              elim (Option-cases (find (λ (e : EffectRecord). e.effect_id == id) r.effects)) [
                | inl absent ↦ absurd (ground (arith, h, timely, known, absent))
                | inr (e, present) ↦ elim (Result-cases (transition_effect rt e target t)) [
                  | inl (x, refused) ↦ absurd (ground (arith, h, timely, known, present, refused))
                  | inr (f, moved) ↦ record {
                    id = id;
                    timestamp = t;
                    selected = e;
                    moved = f;
                    found = present;
                    steps = moved;
                    built = ground (arith, h, timely, known, present, moved);
                  }
                ]
              ]
        ]
      ]

  -- `transition_mission_effect` on a Mission whose effects have identifiers of their own keeps the
  -- state of the Mission and its request; every effect stays as it was, or moves along one entry of
  -- the table with its identifier and amount; and the constructor accepts the result.
  pub transition_mission_effect-moves :
      (r : MissionRecord) (ref : String) (target : EffectState) (at : Datetime) (s : MissionRecord)
      → DistinctIds r.effects
      → transition_mission_effect rt r ref target at ≡ ok s
      → (s.state ≡ r.state)
        × (s.request ≡ r.request)
        × EffectMoves r.effects s.effects
        × IsWellFormed rt s
  unfolding transition_mission_effect
  transition_mission_effect-moves r ref target at s distinct h =
      let step = transition_mission_effect-EffectStep r ref target at s h in
      let same = make_mission_record-same rt _ step.built in
      let move = transition_effect-move step.selected target step.timestamp step.steps in
      (
        ap (λ (x : MissionRecord). x.state) same,
        ap (λ (x : MissionRecord). x.request) same,
        subst (λ es. EffectMoves r.effects es) (sym (ap (λ (x : MissionRecord). x.effects) same))
            (replace_effect-moves step.id step.selected step.moved r.effects distinct step.found
              (inr (ap (effect_allowed step.selected.state) move.1 ∙ move.0, move.2, move.3))),
        ap (make_mission_record rt) same ∙ step.built,
      )
