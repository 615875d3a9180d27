-- ===== src/Persistence/BindingStore/Immutable.antt =====
-- What `bind` leaves in the table, and that it never changes a binding.
use mathlib.Core.Path.{subst}
use nexus_vector_keeperhub.Prelude.{
  ◌≡◌, refl, sym, ap, ◌∙◌, ◌⊎◌, inl, inr, String, true, Option, none, some, List, ◌∷◌, ◌==◌, find,
  arith, eq_iff, eq_refl, if◌then◌else◌, Bool-cases, Option-cases,
}
use nexus_vector_keeperhub.Prelude.Finding.{find-holds}
use nexus_vector_keeperhub.Errors.{ErrorClass, ok, Result-cases}
use nexus_vector_keeperhub.Runtime.{Runtime}
use nexus_vector_keeperhub.Clock.{utc, require_utc-cases}
use nexus_vector_keeperhub.Surface.{ExecutionSurface, Binding, same_surface, make_binding}
use nexus_vector_keeperhub.Persistence.Database.{write-committed, write-keeps}
use nexus_vector_keeperhub.Persistence.BindingStore.{
  BindingRow, BindingDb, translate, decode, load_by_effect, load_by_reference, insert_binding,
  bind_operation, bind,
}

same_surface→≡ : (a b : ExecutionSurface) → same_surface a b ≡ true → a ≡ b
same_surface→≡ a b h = ground arith

if_self :
    (row : BindingRow) (rest : Option BindingRow)
    → (if row.effect_id == row.effect_id then some row else rest) ≡ some row
if_self row rest = rw (eq_refl row.effect_id) refl

module _ (rt : Runtime) where
  pub make_binding-same : (b : Binding) {c : Binding} → make_binding rt b ≡ ok c → c ≡ b
  unfolding make_binding
  make_binding-same b h = ground arith

  decode-fields :
      (row : BindingRow) {b : Binding}
      → decode rt (some row) ≡ ok (some b)
      → (b.effect_id ≡ row.effect_id)
        × (b.mission_key ≡ row.mission_key)
        × (b.surface ≡ row.surface)
  decode-fields row {b} h =
      let x : Binding = record {
        mission_key = row.mission_key;
        effect_id = row.effect_id;
        surface = row.surface;
        binding_reference = row.binding_reference;
        bound_at_utc = utc row.bound_at;
      } in
      elim (Result-cases (make_binding rt x)) [
        | inl (e, bad) ↦ absurd (ground (arith, h, bad))
        | inr (c, made) ↦ ground (arith, h, made, make_binding-same x made)
      ]

  pub load_by_effect-id :
      (id : String) (t : List BindingRow) {b : Binding}
      → load_by_effect rt id t ≡ ok (some b)
      → b.effect_id ≡ id
  unfolding load_by_effect
  load_by_effect-id id t {b} h =
      elim (Option-cases (find (λ (row : BindingRow). row.effect_id == id) t)) [
        | inl none_there ↦ absurd (ground (arith, h, none_there))
        | inr (row, there) ↦
            (decode-fields row {b = b} (ground (arith, h, there))).0
            ∙ ground (
              arith,
              find-holds (λ (r : BindingRow). r.effect_id == id) t there,
              eq_iff row.effect_id id,
            )
      ]

  -- What `bind` has done where it returns `s`.
  pub record Bound (b : Binding) (t : List BindingRow) (s : Binding) (t' : List BindingRow)
      : Type 0 where
    pub mission_key : s.mission_key ≡ b.mission_key
    pub effect_id : s.effect_id ≡ b.effect_id
    pub surface : s.surface ≡ b.surface
    pub shown : load_by_effect rt b.effect_id t' ≡ ok (some s)
    pub grown :
        (t' ≡ t)
        ⊎ ((load_by_effect rt b.effect_id t ≡ ok none)
            × ((row : BindingRow) × (row.effect_id ≡ b.effect_id) × (t' ≡ row ∷ t)))

  -- The first row is the one that is found.
  inserted-fields :
      (row : BindingRow) (t : List BindingRow) {b : Binding}
      → load_by_effect rt row.effect_id (row ∷ t) ≡ ok (some b)
      → (b.effect_id ≡ row.effect_id)
        × (b.mission_key ≡ row.mission_key)
        × (b.surface ≡ row.surface)
  unfolding load_by_effect
  inserted-fields row t {b} h = decode-fields row {b = b} (
      subst (λ o. decode rt o ≡ ok (some b))
        (if_self row (find (λ (r : BindingRow). r.effect_id == row.effect_id) t)) h)

  insert_binding-Bound :
      (b : Binding) (t : List BindingRow) {s : Binding} {t' : List BindingRow}
      → load_by_effect rt b.effect_id t ≡ ok none
      → insert_binding rt b t ≡ ok (s, t')
      → Bound b t s t'
  unfolding insert_binding
  insert_binding-Bound b t {s} {t'} new h =
      elim (Result-cases (load_by_reference rt b.binding_reference t)) [
        | inl (e, bad) ↦ absurd (ground (arith, h, bad))
        | inr (some x, taken) ↦ absurd (ground (arith, h, taken))
        | inr (none, unused) ↦ elim (require_utc-cases ErrorClass.surface_store b.bound_at_utc) [
          | inr (e, bad) ↦ absurd (ground (arith, h, unused, bad))
          | inl timely ↦
              let row : BindingRow = record {
                effect_id = b.effect_id;
                mission_key = b.mission_key;
                surface = b.surface;
                binding_reference = b.binding_reference;
                bound_at = b.bound_at_utc.instant;
              } in
              elim (Result-cases (load_by_effect rt b.effect_id (row ∷ t))) [
                | inl (e, bad) ↦ absurd (ground (arith, h, unused, timely, bad))
                | inr (none, lost) ↦ absurd (ground (arith, h, unused, timely, lost))
                | inr (some x, loaded) ↦
                    let same : s ≡ x = ground (arith, h, unused, timely, loaded) in
                    let table : t' ≡ row ∷ t = ground (arith, h, unused, timely, loaded) in
                    let fields = inserted-fields row t loaded in
                    record {
                      mission_key = ap (λ (y : Binding). y.mission_key) same ∙ fields.1;
                      effect_id = ap (λ (y : Binding). y.effect_id) same ∙ fields.0;
                      surface = ap (λ (y : Binding). y.surface) same ∙ fields.2;
                      shown = rw (table, same) loaded;
                      grown = inr (new, (row, refl, table));
                    }
              ]
        ]
      ]

  bind_operation-Bound :
      (b : Binding) (t : List BindingRow) {s : Binding} {t' : List BindingRow}
      → bind_operation rt b t ≡ ok (s, t')
      → Bound b t s t'
  unfolding bind_operation
  bind_operation-Bound b t {s} {t'} h = elim (Result-cases (load_by_effect rt b.effect_id t)) [
    | inl (e, bad) ↦ absurd (ground (arith, h, bad))
    | inr (none, new) ↦ insert_binding-Bound b t {s = s} {t' = t'} new (ground (arith, h, new))
    | inr (some x, old) ↦
        let same : s ≡ x = ground (arith, h, old) in
        let id : s.effect_id ≡ b.effect_id =
          ap (λ (y : Binding). y.effect_id) same ∙ load_by_effect-id b.effect_id t old in
        let kept : t' ≡ t = ground (arith, h, old) in
        record {
          mission_key = ground (arith, h, old, eq_iff x.mission_key b.mission_key);
          effect_id = id;
          surface = ground (arith, h, old, same_surface→≡ x.surface b.surface);
          shown = rw (kept, same) old;
          grown = inl kept;
        }
  ]

  -- A new row is for another effect.
  kept_shown :
      (b : Binding) (t : List BindingRow) (id : String) (old : Binding) {t' : List BindingRow}
      → load_by_effect rt id t ≡ ok (some old)
      → (t' ≡ t)
        ⊎ ((load_by_effect rt b.effect_id t ≡ ok none)
            × ((row : BindingRow) × (row.effect_id ≡ b.effect_id) × (t' ≡ row ∷ t)))
      → load_by_effect rt id t' ≡ ok (some old)
  unfolding load_by_effect
  kept_shown b t id old h (inl same) = rw same h
  kept_shown b t id old h (inr (new, (row, owner, table))) =
      elim (Bool-cases (row.effect_id == id)) [
        | inr other ↦ rw (table, other) h
        | inl clash ↦
            let is_id : b.effect_id ≡ id =
              sym owner ∙ ground (arith, clash, eq_iff row.effect_id id) in
            absurd (ground (arith, new, h, is_id))
      ]

  -- Whatever `bind` is called with, and whatever comes of it, an effect that was bound stays bound
  -- as it was.
  pub bind-immutable :
      (b : Binding) (db : BindingDb) (id : String) (old : Binding)
      → load_by_effect rt id db.tables ≡ ok (some old)
      → load_by_effect rt id (bind rt b db).1.tables ≡ ok (some old)
  unfolding bind
  bind-immutable b db id old h =
      write-keeps (λ t. load_by_effect rt id t ≡ ok (some old)) ErrorClass.surface_store translate
        (bind_operation rt b) db
        (λ s t' done. kept_shown b db.tables id old h (bind_operation-Bound b db.tables done).grown)
        h

  pub bind-Bound :
      (b : Binding) (db : BindingDb) (s : Binding)
      → (bind rt b db).0 ≡ ok s
      → Bound b db.tables s (bind rt b db).1.tables
  unfolding bind
  bind-Bound b db s h =
      bind_operation-Bound b db.tables
        (write-committed ErrorClass.surface_store translate (bind_operation rt b) db h)
