-- ===== src/SurfaceGate.antt =====
-- src/nexus_vector/application/execution_surface_gate.py: a port that binds the effect of an attempt
-- to its surface before it delegates. The delegate is a protocol: a parameter, with a state of its
-- own, which returns anything or raises. The state of a gate is the binding store, the state of the
-- delegate, and the list of the attempts that the delegate was called with, the latest first.
pub mod Exclusive
pub mod OneSurface
use nexus_vector_keeperhub.Prelude.{ℕ, String, Bool, not, ◌||◌, List, [], ◌∷◌, ◌==◌, if◌then◌else◌}
use nexus_vector_keeperhub.Errors.{Error, ErrorClass, Code, Result, ok, err, map_err}
use nexus_vector_keeperhub.Calls.{Call, ◌>>=◌, ◌>>◌, pure, lift, raise}
use nexus_vector_keeperhub.Clock.{utc}
use nexus_vector_keeperhub.Runtime.{Runtime}
use nexus_vector_keeperhub.Attempt.{AttemptRecord}
use nexus_vector_keeperhub.Attempt.States.{AttemptState, same}
use nexus_vector_keeperhub.Surface.{ExecutionSurface, Binding, same_surface, make_binding}
use nexus_vector_keeperhub.Persistence.BindingStore.{BindingDb, initialize, bind}

-- The fields of a `SurfaceBoundExecutionPort` that its constructor checks.
pub record Gate : Type 0 where
  pub surface : ExecutionSurface
  pub binding_reference : String

-- A call of the delegate of a gate.
pub record Delegation : Type 0 where
  pub surface : ExecutionSurface
  pub effect_id : String

pub record GateState (Q : Type 0) : Type 0 where
  pub bindings : BindingDb
  pub delegate : Q
  pub delegations : List Delegation

abbrev pub Delegate : Type 0 → Type 0 → Type 0
Delegate Q A = AttemptRecord → Call Q A

-- `except (...) as error: raise ExecutionSurfaceGateError(error.code)`
unfoldable pub gate_error : Error → Error
gate_error e = elim e.class [
  | ErrorClass.surface ↦ record { class = ErrorClass.surface_gate; code = e.code }
  | ErrorClass.surface_store ↦ record { class = ErrorClass.surface_gate; code = e.code }
  | _ ↦ e
]

-- The binding that a gate asks for.
abbrev pub requested : Gate → AttemptRecord → Binding
requested g attempt = record {
  mission_key = attempt.plan.mission_key;
  effect_id = attempt.plan.effect_id;
  surface = g.surface;
  binding_reference = g.binding_reference;
  bound_at_utc = attempt.updated_at_utc;
}

module _ (rt : Runtime) where
  abbrev probe : Gate → Result Binding
  probe g = make_binding rt (record {
    mission_key = "msn_0000000000000000000000000000000000000000000000000000000000000000";
    effect_id = "eff_0000000000000000000000000000000000000000000000000000000000000000";
    surface = g.surface;
    binding_reference = g.binding_reference;
    bound_at_utc = utc 946684800000000;
  })

  -- The constructor: a probe binding checks the reference.
  unfoldable pub make_gate : Gate → Result Gate
  make_gate g = elim (probe g) [
    | err e ↦ err (gate_error e)
    | ok b ↦ ok (record { surface = b.surface; binding_reference = b.binding_reference })
  ]

module _ {Q : Type 0} where
  -- A call of the binding store, on the part of the state that it owns.
  abbrev pub on_bindings : {A : Type 0} → Call BindingDb A → Call (GateState Q) A
  on_bindings m s = let (r, db) = m s.bindings in (r, record s { bindings = db })

  abbrev pub guarded : {A : Type 0} → Call (GateState Q) A → Call (GateState Q) A
  guarded m s = let (r, s') = m s in (map_err gate_error r, s')

  -- `self._delegate.execute(attempt)`
  unfoldable pub call_delegate :
      {A : Type 0} → Gate → Delegate Q A → AttemptRecord → Call (GateState Q) A
  call_delegate g delegate attempt s =
      let (r, q) = delegate attempt s.delegate in
      (
        r,
        record s {
          delegate = q;
          delegations =
              record { surface = g.surface; effect_id = attempt.plan.effect_id } ∷ s.delegations;
        },
      )

module _ {Q : Type 0} (rt : Runtime) where
  -- The `try` of `execute`.
  unfoldable pub bind_requested : Gate → AttemptRecord → Call (GateState Q) Binding
  bind_requested g attempt = guarded (do
    on_bindings initialize
    b ← lift (make_binding rt (requested g attempt))
    on_bindings (bind rt b))

  unfoldable pub execute : {A : Type 0} → Gate → Delegate Q A → AttemptRecord → Call (GateState Q) A
  execute g delegate attempt =
      if not (same attempt.state AttemptState.in_flight)
      then raise ErrorClass.surface_gate Code.attempt_not_in_flight
      else do
        binding ← bind_requested g attempt
        if not (binding.mission_key == attempt.plan.mission_key)
              || not (binding.effect_id == attempt.plan.effect_id)
              || not (same_surface binding.surface g.surface)
            then raise ErrorClass.surface_gate Code.surface_binding_mismatch
            else call_delegate g delegate attempt
