-- ===== src/SurfaceGate/OneSurface.antt =====
-- Gates of all surfaces on one binding store, in any order: calls of gates, other bindings, outages
-- of the database. A call of a gate runs to its end before the next one starts.
use mathlib.Core.Path.{subst}
use nexus_vector_keeperhub.Prelude.{
  ℕ, String, ◌≡◌, sym, ap, ◌∙◌, inl, inr, Bool, not, ◌||◌, some, List, [], ◌∷◌, ◌==◌, All, arith,
  Bool-cases,
}
use nexus_vector_keeperhub.Prelude.Positions.{get_elem?, All-get_elem?}
use nexus_vector_keeperhub.Errors.{ok, Result-cases}
use nexus_vector_keeperhub.Runtime.{Runtime}
use nexus_vector_keeperhub.Attempt.{AttemptRecord}
use nexus_vector_keeperhub.Attempt.States.{AttemptState, same}
use nexus_vector_keeperhub.Surface.{Binding, same_surface}
use nexus_vector_keeperhub.Persistence.BindingStore.{load_by_effect, bind}
use nexus_vector_keeperhub.Persistence.BindingStore.Immutable.{bind-immutable}
use nexus_vector_keeperhub.SurfaceGate.{
  Gate, Delegation, GateState, Delegate, on_bindings, call_delegate, bind_requested, execute,
}
use nexus_vector_keeperhub.SurfaceGate.Exclusive.{
  IsBoundTo, execute_delegates_once, bind_requested-immutable,
}

pub data Step {Q A : Type 0} (rt : Runtime) (delegate : Delegate Q A) (s : GateState Q)
    : GateState Q → Type 0 where
  gate_call :
      (g : Gate) (attempt : AttemptRecord) → Step rt delegate s (execute rt g delegate attempt s).1
  other_bind : (b : Binding) → Step rt delegate s (on_bindings (bind rt b) s).1
  -- the database engine fails, or recovers
  outage :
      (faults : List Bool)
      → Step rt delegate s (record s { bindings = record s.bindings { faults = faults } })

pub data Reach {Q A : Type 0} (rt : Runtime) (delegate : Delegate Q A) (s : GateState Q)
    : GateState Q → Type 0 where
  here : Reach rt delegate s s
  next : {t u : GateState Q} → Reach rt delegate s t → Step rt delegate t u → Reach rt delegate s u

-- Every attempt that was delegated has its effect bound to the surface it went through.
abbrev pub AllBound : {Q : Type 0} → Runtime → GateState Q → Type 0
AllBound rt s =
    All (λ (d : Delegation). IsBoundTo rt s.bindings d.effect_id d.surface) s.delegations

module _ {Q A : Type 0} (rt : Runtime) (delegate : Delegate Q A) where
  execute-immutable :
      (g : Gate) (attempt : AttemptRecord) (s : GateState Q) (id : String) (old : Binding)
      → load_by_effect rt id s.bindings.tables ≡ ok (some old)
      → load_by_effect rt id (execute rt g delegate attempt s).1.bindings.tables ≡ ok (some old)
  unfolding execute call_delegate
  execute-immutable g attempt s id old h =
      elim (Bool-cases (same attempt.state AttemptState.in_flight)) [
        | inr early ↦ rw early h
        | inl flying ↦
            let kept = bind_requested-immutable rt g attempt s id old h in
            elim (Result-cases (bind_requested rt g attempt s).0) [
              | inl (e, refused) ↦ rw (flying, refused) kept
              | inr (b, bound) ↦
                  elim (Bool-cases (
                    not (b.mission_key == attempt.plan.mission_key)
                    || not (b.effect_id == attempt.plan.effect_id)
                    || not (same_surface b.surface g.surface))) [
                      | inl differs ↦ rw (flying, bound, differs) kept
                      | inr agrees ↦ rw (flying, bound, agrees) kept
                    ]
            ]
      ]

  -- Bindings that stay keep the delegations of a list bound.
  still_bound :
      (s t : GateState Q) (ds : List Delegation)
      → ((id : String) (old : Binding)
          → load_by_effect rt id s.bindings.tables ≡ ok (some old)
          → load_by_effect rt id t.bindings.tables ≡ ok (some old))
      → All (λ (d : Delegation). IsBoundTo rt s.bindings d.effect_id d.surface) ds
      → All (λ (d : Delegation). IsBoundTo rt t.bindings d.effect_id d.surface) ds
  still_bound s t [] keeps h = tt
  still_bound s t (d ∷ ds) keeps ((b, shown, on), rest) =
      ((b, keeps d.effect_id b shown, on), still_bound s t ds keeps rest)

  gate_call-AllBound :
      (g : Gate) (attempt : AttemptRecord) (s : GateState Q)
      → AllBound rt s
      → AllBound rt (execute rt g delegate attempt s).1
  gate_call-AllBound g attempt s v =
      let t = (execute rt g delegate attempt s).1 in
      let still = still_bound s t s.delegations (execute-immutable g attempt s) v in
      let P = λ (ds : List Delegation).
        All (λ (d : Delegation). IsBoundTo rt t.bindings d.effect_id d.surface) ds in
      elim (execute_delegates_once rt g delegate attempt s) [
        | inl (e, raised, same_delegate, same_log) ↦ subst P (sym same_log) still
        | inr done ↦ subst P (sym done.logged) (done.bound, still)
      ]

  Step-AllBound : {s t : GateState Q} → AllBound rt s → Step rt delegate s t → AllBound rt t
  Step-AllBound {s} v (gate_call g attempt) = gate_call-AllBound g attempt s v
  Step-AllBound {s} v (other_bind b) =
      still_bound s (on_bindings (bind rt b) s).1 s.delegations
        (λ id old h. bind-immutable rt b s.bindings id old h) v
  Step-AllBound v (outage faults) = v

  Reach-AllBound : {s t : GateState Q} → AllBound rt s → Reach rt delegate s t → AllBound rt t
  Reach-AllBound v here = v
  Reach-AllBound v (next run step) = Step-AllBound (Reach-AllBound v run) step

  -- Whatever gates are called, for whatever attempts, and whatever else binds effects or makes
  -- transactions fail: if nothing was delegated at the start, then any two delegated attempts for one
  -- effect went through one surface.
  pub one_surface :
      {s t : GateState Q} (i j : ℕ) {d e : Delegation}
      → s.delegations ≡ []
      → Reach rt delegate s t
      → get_elem? t.delegations i ≡ some d
      → get_elem? t.delegations j ≡ some e
      → d.effect_id ≡ e.effect_id
      → d.surface ≡ e.surface
  one_surface {s} {t} i j {d} {e} fresh run hi hj one_effect =
      let P = λ (x : Delegation). IsBoundTo rt t.bindings x.effect_id x.surface in
      let start : AllBound rt s =
        subst (λ ds. All (λ (x : Delegation). IsBoundTo rt s.bindings x.effect_id x.surface) ds)
          (sym fresh) tt in
      let v = Reach-AllBound start run in
      let (b, shown, on) = All-get_elem? P t.delegations i v hi in
      let (c, shown', on') = All-get_elem? P t.delegations j v hj in
      let same_binding : b ≡ c = ground (arith, shown, shown', one_effect) in
      sym on ∙ ap (λ (x : Binding). x.surface) same_binding ∙ on'
