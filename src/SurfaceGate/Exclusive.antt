-- ===== src/SurfaceGate/Exclusive.antt =====
-- A gate delegates only what it has bound durably, and one effect goes through one surface.
use mathlib.Core.Path.{subst}
use nexus_vector_keeperhub.Prelude.{
  ◌≡◌, refl, sym, ap, ◌∙◌, ◌⊎◌, inl, inr, String, not, ◌||◌, some, List, ◌∷◌, ◌==◌, arith,
  Bool-cases,
}
use nexus_vector_keeperhub.Errors.{Error, Result, ok, err, Result-cases}
use nexus_vector_keeperhub.Runtime.{Runtime}
use nexus_vector_keeperhub.Attempt.{AttemptRecord}
use nexus_vector_keeperhub.Attempt.States.{AttemptState, same, same→≡}
use nexus_vector_keeperhub.Surface.{ExecutionSurface, Binding, same_surface, make_binding}
use nexus_vector_keeperhub.Persistence.Database.{write}
use nexus_vector_keeperhub.Persistence.BindingStore.{BindingDb, load_by_effect, initialize, bind}
use nexus_vector_keeperhub.Persistence.BindingStore.Immutable.{
  make_binding-same, bind-immutable, bind-Bound,
}
use nexus_vector_keeperhub.SurfaceGate.{
  Gate, Delegation, GateState, Delegate, requested, call_delegate, bind_requested, execute,
}

-- The effect is bound to the surface.
abbrev pub IsBoundTo : Runtime → BindingDb → String → ExecutionSurface → Type 0
IsBoundTo rt db id surface =
    (b : Binding) × (load_by_effect rt id db.tables ≡ ok (some b)) × (b.surface ≡ surface)

initialize-tables : (db : BindingDb) → (initialize db).1.tables ≡ db.tables
unfolding initialize write
initialize-tables db = ground arith

module _ {Q : Type 0} (rt : Runtime) where
  -- Binding leaves the delegate alone, and an effect that was bound stays bound as it was.
  bind_requested-keeps :
      (g : Gate) (attempt : AttemptRecord) (s : GateState Q)
      → let s' = (bind_requested rt g attempt s).1 in
        (s'.delegate ≡ s.delegate) × (s'.delegations ≡ s.delegations)
  unfolding bind_requested
  bind_requested-keeps g attempt s = elim (Result-cases (initialize s.bindings).0) [
    | inl (e, failed) ↦ rw failed (refl, refl)
    | inr (x, started) ↦ elim (Result-cases (make_binding rt (requested g attempt))) [
      | inl (e, bad) ↦ rw (started, bad) (refl, refl)
      | inr (b, made) ↦ rw (started, made) (refl, refl)
    ]
  ]

  pub bind_requested-immutable :
      (g : Gate) (attempt : AttemptRecord) (s : GateState Q) (id : String) (old : Binding)
      → load_by_effect rt id s.bindings.tables ≡ ok (some old)
      → load_by_effect rt id (bind_requested rt g attempt s).1.bindings.tables ≡ ok (some old)
  unfolding bind_requested
  bind_requested-immutable g attempt s id old h =
      let db = (initialize s.bindings).1 in
      let before : load_by_effect rt id db.tables ≡ ok (some old) =
        rw (initialize-tables s.bindings) h in
      elim (Result-cases (initialize s.bindings).0) [
        | inl (e, failed) ↦ rw failed before
        | inr (x, started) ↦ elim (Result-cases (make_binding rt (requested g attempt))) [
          | inl (e, bad) ↦ rw (started, bad) before
          | inr (b, made) ↦ rw (started, made) (bind-immutable rt b db id old before)
        ]
      ]

  -- A binding that `bind_requested` returns is the one in the table for its effect.
  bind_requested-bound :
      (g : Gate) (attempt : AttemptRecord) (s : GateState Q) {b : Binding}
      → (bind_requested rt g attempt s).0 ≡ ok b
      → (load_by_effect rt attempt.plan.effect_id (bind_requested rt g attempt s).1.bindings.tables
          ≡ ok (some b))
        × (b.surface ≡ g.surface)
  unfolding bind_requested
  bind_requested-bound g attempt s {b} h =
      let db = (initialize s.bindings).1 in
      elim (Result-cases (initialize s.bindings).0) [
        | inl (e, failed) ↦ absurd (ground (arith, h, failed))
        | inr (x, started) ↦ elim (Result-cases (make_binding rt (requested g attempt))) [
          | inl (e, bad) ↦ absurd (ground (arith, h, started, bad))
          | inr (c, made) ↦ elim (Result-cases (bind rt c db).0) [
            | inl (e, refused) ↦ absurd (ground (arith, h, started, made, refused))
            | inr (d, bound) ↦
                let same : d ≡ b = ground (arith, h, started, made, bound) in
                let facts = bind-Bound rt c db d bound in
                let asked = make_binding-same rt (requested g attempt) made in
                rw (started, made)
                  (
                    subst
                        (λ (i : String). load_by_effect rt i (bind rt c db).1.tables ≡ ok (some b))
                        (ap (λ (y : Binding). y.effect_id) asked)
                        (facts.shown ∙ ap (λ (y : Binding). ok (some y)) same),
                    ap (λ (y : Binding). y.surface) (sym same)
                        ∙ facts.surface
                        ∙ ap (λ (y : Binding). y.surface) asked,
                  )
          ]
        ]
      ]

  -- What `execute` has done when the delegate was called.
  pub record Delegated {A : Type 0} (g : Gate) (delegate : Delegate Q A) (attempt : AttemptRecord)
      (s : GateState Q) (r : Result A) (s' : GateState Q) : Type 0 where
    pub in_flight : attempt.state ≡ AttemptState.in_flight
    pub bound : IsBoundTo rt s'.bindings attempt.plan.effect_id g.surface
    pub reply : r ≡ (delegate attempt s.delegate).0
    pub delegated : s'.delegate ≡ (delegate attempt s.delegate).1
    pub logged :
        s'.delegations
        ≡ record { surface = g.surface; effect_id = attempt.plan.effect_id } ∷ s.delegations

  -- A call of a gate either raises and has not called its delegate, or it calls the delegate once and
  -- returns what the delegate returns or raises: then the attempt is IN_FLIGHT, and the binding of its
  -- effect to the surface of the gate is in the table.
  pub execute_delegates_once :
      {A : Type 0} (g : Gate) (delegate : Delegate Q A) (attempt : AttemptRecord) (s : GateState Q)
      → let (r, s') = execute rt g delegate attempt s in
        ((e : Error) × (r ≡ err e) × (s'.delegate ≡ s.delegate) × (s'.delegations ≡ s.delegations))
        ⊎ Delegated g delegate attempt s r s'
  unfolding execute call_delegate
  execute_delegates_once {A} g delegate attempt s =
      elim (Bool-cases (same attempt.state AttemptState.in_flight)) [
        | inr early ↦ rw early (inl (_, refl, refl, refl))
        | inl flying ↦ elim (Result-cases (bind_requested rt g attempt s).0) [
          | inl (e, refused) ↦
              let kept = bind_requested-keeps g attempt s in
              rw (flying, refused) (inl (e, refl, kept.0, kept.1))
          | inr (b, bound) ↦
              let kept = bind_requested-keeps g attempt s in
              elim (Bool-cases (
                not (b.mission_key == attempt.plan.mission_key)
                || not (b.effect_id == attempt.plan.effect_id)
                || not (same_surface b.surface g.surface))) [
                  | inl differs ↦ rw (flying, bound, differs) (inl (_, refl, kept.0, kept.1))
                  | inr agrees ↦
                      let facts = bind_requested-bound g attempt s bound in
                      rw (flying, bound, agrees)
                        (inr (record {
                          in_flight = same→≡ attempt.state AttemptState.in_flight flying;
                          bound = (b, facts.0, facts.1);
                          reply = ap (λ q. (delegate attempt q).0) kept.0;
                          delegated = ap (λ q. (delegate attempt q).1) kept.0;
                          logged =
                              ap
                                (λ (l : List Delegation).
                                  record { surface = g.surface; effect_id = attempt.plan.effect_id }
                                  ∷ l)
                                kept.1;
                        }))
                ]
        ]
      ]
