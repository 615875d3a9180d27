-- ===== src/Persistence/MissionStore/Effects.antt =====
-- The statements on the table of effects write back what they have read, where the effects of a Mission
-- did not move, in src/nexus_vector/persistence/sqlite_mission_store.py.
use mathlib.Core.Path.{subst}
use nexus_vector_keeperhub.Prelude.{
  ℕ, String, ◌≡◌, refl, sym, ap, ◌∙◌, ◌⊎◌, inl, inr, true, not, ◌&&◌, List, [], ◌∷◌, ◌==◌, nat_eq,
  arith, All, Bool-cases, eq_iff, eq_refl,
}
use nexus_vector_keeperhub.Prelude.Sorting.{All-sort_by}
use nexus_vector_keeperhub.Errors.{ErrorClass, Code, ok, bind-ok, guard-ok, ok_injective}
use nexus_vector_keeperhub.Clock.{Datetime, require_utc-cases}
use nexus_vector_keeperhub.Runtime.{Runtime}
use nexus_vector_keeperhub.Mission.States.{EffectState}
use nexus_vector_keeperhub.Mission.Records.{EffectRecord}
use nexus_vector_keeperhub.Mission.Models.{make_effect_record}
use nexus_vector_keeperhub.Persistence.MissionTables.{
  EffectRow, MissionTables, serialize, effects_of, update_effect_rows, matching_effects,
  update_effects,
}
use nexus_vector_keeperhub.Persistence.MissionStore.{decode_effects}
use nexus_vector_keeperhub.Persistence.MissionStore.Rows.{effect_rows}

abbrev Has : EffectRow → List EffectRow → Type 0
Has row [] = ⊥
Has row (x ∷ xs) = (x ≡ row) ⊎ Has row xs

update_effect_rows-none :
    (key id : String) (st : EffectState) (at : ℕ) (t : List EffectRow)
    → matching_effects key id t ≡ 0
    → update_effect_rows key id st at t ≡ t
unfolding update_effect_rows matching_effects
update_effect_rows-none key id st at [] h = refl
update_effect_rows-none key id st at (x ∷ t) h =
    elim (Bool-cases (x.effect_id == id && x.mission_key == key)) [
      | inl here ↦ absurd (ground (arith, h, here))
      | inr other ↦
          rw other
            (ap (λ l. x ∷ l) (update_effect_rows-none key id st at t (ground (arith, h, other))))
    ]

module _ (key id : String) (row : EffectRow)
    (mine : (row.effect_id == id && row.mission_key == key) ≡ true) where
  matching_effects-Has : (t : List EffectRow) → Has row t → (matching_effects key id t ≡ 0) → ⊥
  unfolding matching_effects
  matching_effects-Has [] there h = elim there [ ]
  matching_effects-Has (x ∷ t) (inl here) h =
      let this : (x.effect_id == id && x.mission_key == key) ≡ true =
        ap (λ (r : EffectRow). r.effect_id == id && r.mission_key == key) here ∙ mine in
      ground (arith, h, this)
  matching_effects-Has (x ∷ t) (inr later) h = matching_effects-Has t later (ground (arith, h))

  update_effect_rows-same :
      (t : List EffectRow)
      → Has row t
      → matching_effects key id t ≡ 1
      → update_effect_rows key id row.state row.updated_at t ≡ t
  unfolding update_effect_rows matching_effects
  update_effect_rows-same [] there h = elim there [ ]
  update_effect_rows-same (x ∷ t) (inl here) h =
      let this : (x.effect_id == id && x.mission_key == key) ≡ true =
        ap (λ (r : EffectRow). r.effect_id == id && r.mission_key == key) here ∙ mine in
      let rest =
        update_effect_rows-none key id row.state row.updated_at t (ground (arith, h, this)) in
      rw this (
        ap (λ l. record x { state = row.state; updated_at = row.updated_at } ∷ l) rest
        ∙ ap (λ (r : EffectRow). record x { state = r.state; updated_at = r.updated_at } ∷ t)
            (sym here))
  update_effect_rows-same (x ∷ t) (inr later) h =
      elim (Bool-cases (x.effect_id == id && x.mission_key == key)) [
        | inl this ↦ absurd (matching_effects-Has t later (ground (arith, h, this)))
        | inr other ↦
            rw other (ap (λ l. x ∷ l) (update_effect_rows-same t later (ground (arith, h, other))))
      ]

serialize-instant : (t : Datetime) {n : ℕ} → serialize t ≡ ok n → n ≡ t.instant
serialize-instant t h = elim (require_utc-cases ErrorClass.mission_store t) [
  | inl e ↦ ground (arith, h, e)
  | inr (x, e) ↦ absurd (ground (arith, h, e))
]

-- An effect stands in the table of its Mission, in the state and with the time of its row.
pub record IsStored (key : String) (t : List EffectRow) (e : EffectRecord) : Type 0 where
  row : EffectRow
  has : Has row t
  id : row.effect_id ≡ e.effect_id
  mission : row.mission_key ≡ key
  state : row.state ≡ e.state
  updated : row.updated_at ≡ e.updated_at_utc.instant

-- Effects that stand in the table are written back as they are.
pub update_effects-same :
    (key : String) (es : List EffectRecord) (t : List EffectRow) {t' : List EffectRow}
    → All (IsStored key t) es
    → update_effects key es t ≡ ok t'
    → t' ≡ t
unfolding update_effects
update_effects-same key [] t stored h = ground (arith, h)
update_effects-same key (e ∷ es) t {t'} stored h = bind-ok _ _ h (λ updated e1 h1.
    let (one, h2) =
      guard-ok (not (nat_eq (matching_effects key e.effect_id t) 1)) ErrorClass.mission_store
        Code.corrupt_record
        (update_effects key es (update_effect_rows key e.effect_id e.state updated t)) h1 in
    let s = stored.0 in
    let time : updated ≡ s.row.updated_at = serialize-instant e.updated_at_utc e1 ∙ sym s.updated in
    let same : update_effect_rows key e.effect_id e.state updated t ≡ t =
      rw (time, ← s.state)
        (update_effect_rows-same key e.effect_id s.row
          (rw (s.id, s.mission, eq_refl e.effect_id, eq_refl key) refl) t s.has
          (ground (arith, one))) in
    update_effects-same key es t stored.1 (ap (update_effects key es) (sym same) ∙ h2))

effects_of-All {κ} :
    (P : EffectRow → Type κ) (key : String) (t : List EffectRow)
    → ((row : EffectRow) → Has row t → row.mission_key ≡ key → P row)
    → All P (effects_of key t)
effects_of-All P key [] p = tt
effects_of-All P key (x ∷ t) p =
    let rest = effects_of-All P key t (λ row there. p row (inr there)) in
    elim (Bool-cases (x.mission_key == key)) [
      | inl this ↦ rw this (p x (inl refl) ((eq_iff x.mission_key key).0 this), rest)
      | inr other ↦ rw other rest
    ]

make_effect_record-row :
    (rt : Runtime) (e : EffectRecord) {s : EffectRecord}
    → make_effect_record rt e ≡ ok s
    → (s.effect_id ≡ e.effect_id) × (s.state ≡ e.state) × (s.updated_at_utc ≡ e.updated_at_utc)
unfolding make_effect_record
make_effect_record-row rt e h = ground arith

module _ (rt : Runtime) where
  decode_effects-IsStored :
      (key : String) (t rows : List EffectRow) {es : List EffectRecord}
      → All (λ row. Has row t × (row.mission_key ≡ key)) rows
      → decode_effects rt rows ≡ ok es
      → All (IsStored key t) es
  unfolding decode_effects
  decode_effects-IsStored key t [] {es} there h =
      let none_left : [] ≡ es = ok_injective h in subst (All (IsStored key t)) none_left tt
  decode_effects-IsStored key t (row ∷ rows) {es} there h = bind-ok _ _ h (λ e e1 h1.
      bind-ok (decode_effects rt rows) (λ x. ok (e ∷ x)) h1
        (λ rest e2 h2.
          let kept = make_effect_record-row rt _ e1 in
          let stored : IsStored key t e = record {
            row = row;
            has = there.0.0;
            id = sym kept.0;
            mission = there.0.1;
            state = sym kept.1;
            updated = sym (ap (λ (d : Datetime). d.instant) kept.2);
          } in
          let all : e ∷ rest ≡ es = ok_injective h2 in
          subst (All (IsStored key t)) all (stored, decode_effects-IsStored key t rows there.1 e2)))

  -- The effects that are read of a Mission stand in the table.
  pub effect_rows-IsStored :
      (key : String) (t : MissionTables) {es : List EffectRecord}
      → decode_effects rt (effect_rows key t) ≡ ok es
      → All (IsStored key t.effects) es
  effect_rows-IsStored key t h =
      decode_effects-IsStored key t.effects (effect_rows key t)
        (All-sort_by (λ (row : EffectRow). row.effect_ref)
          (λ row. Has row t.effects × (row.mission_key ≡ key)) (effects_of key t.effects)
          (effects_of-All _ key t.effects (λ row has mission. (has, mission))))
        h
