-- ===== src/Tests/Surfaces.antt =====
-- Bindings and gates at concrete inputs.
use nexus_vector_keeperhub.Prelude.{ℕ, suc, ◌≡◌, refl, ◌⊎◌, some, [], ◌∷◌}
use nexus_vector_keeperhub.Prelude.Ids.{full_match, is_hex}
use nexus_vector_keeperhub.Prelude.Positions.{get_elem?}
use nexus_vector_keeperhub.Errors.{Error, ErrorClass, Code, ok, err}
use nexus_vector_keeperhub.Clock.{utc, require_utc}
use nexus_vector_keeperhub.Plain.{is_unplain, plain_text}
use nexus_vector_keeperhub.Attempt.{AttemptRecord, is_mission_key, is_effect_id}
use nexus_vector_keeperhub.Attempt.States.{AttemptState}
use nexus_vector_keeperhub.Surface.{ExecutionSurface, Binding, make_binding}
use nexus_vector_keeperhub.Persistence.Database.{read, write}
use nexus_vector_keeperhub.Persistence.BindingStore.{
  initialize, translate, corrupt, load_by_effect, load_by_reference, insert_binding, bind_operation,
  bind,
}
use nexus_vector_keeperhub.Persistence.BindingStore.Immutable.{bind-immutable}
use nexus_vector_keeperhub.SurfaceGate.{
  Gate, Delegation, GateState, Delegate, gate_error, call_delegate, bind_requested, execute,
}
use nexus_vector_keeperhub.SurfaceGate.Exclusive.{Delegated, execute_delegates_once}
use nexus_vector_keeperhub.SurfaceGate.OneSurface.{Reach, here, next, gate_call, one_surface}
use nexus_vector_keeperhub.Tests.Fixtures.{toy, prepared_a, mission_a, effect_a}

-- What a run of a gate computes through.
unfoldable pub gate_runs : Unit {0}
unfolding full_match is_hex require_utc is_unplain plain_text is_mission_key is_effect_id
    make_binding read write initialize translate corrupt load_by_effect load_by_reference
    insert_binding bind_operation bind gate_error call_delegate bind_requested execute
gate_runs = tt

abbrev pub flying_a : AttemptRecord
flying_a = record prepared_a { state = AttemptState.in_flight }

abbrev pub workflow_gate : Gate
workflow_gate = record { surface = ExecutionSurface.workflow; binding_reference = "sheet-1" }

abbrev mcp_gate : Gate
mcp_gate = record { surface = ExecutionSurface.mcp; binding_reference = "sheet-2" }

abbrev counting : Delegate ℕ (Unit {0})
counting attempt n = (ok tt, suc n)

abbrev gates_0 : GateState ℕ
gates_0 = record { bindings = record { tables = []; faults = [] }; delegate = 0; delegations = [] }

-- The effect goes through the workflow, is refused to the other surface, and goes again.
abbrev gates_1 : GateState ℕ
gates_1 = (execute toy workflow_gate counting flying_a gates_0).1

abbrev gates_3 : GateState ℕ
gates_3 =
    (execute toy workflow_gate counting flying_a
      (execute toy mcp_gate counting flying_a gates_1).1).1

refused_run :
    (execute toy mcp_gate counting flying_a gates_1).0
    ≡ err (record { class = ErrorClass.surface_gate; code = Code.surface_binding_conflict })
unfolding gate_runs
refused_run = refl

abbrev through_workflow : Delegation
through_workflow = record { surface = ExecutionSurface.workflow; effect_id = effect_a }

delegated_twice : gates_3.delegations ≡ through_workflow ∷ through_workflow ∷ []
unfolding gate_runs
delegated_twice = refl

gates-Reach : Reach toy counting gates_0 gates_3
gates-Reach =
    next (next (next here (gate_call workflow_gate flying_a)) (gate_call mcp_gate flying_a))
      (gate_call workflow_gate flying_a)

first_delegated : get_elem? gates_3.delegations 0 ≡ some through_workflow
unfolding gate_runs
first_delegated = refl

second_delegated : get_elem? gates_3.delegations 1 ≡ some through_workflow
unfolding gate_runs
second_delegated = refl

one_surface_example : through_workflow.surface ≡ through_workflow.surface
one_surface_example =
    one_surface toy counting {s = gates_0} {t = gates_3} 0 1 {d = through_workflow}
      {e = through_workflow} refl gates-Reach first_delegated second_delegated refl

execute_delegates_once_example :
    let (r, s') = execute toy workflow_gate counting flying_a gates_0 in
    ((e : Error) × (r ≡ err e) × (s'.delegate ≡ 0) × (s'.delegations ≡ []))
    ⊎ Delegated toy workflow_gate counting flying_a gates_0 r s'
execute_delegates_once_example = execute_delegates_once toy workflow_gate counting flying_a gates_0

abbrev binding_a : Binding
binding_a = record {
  mission_key = mission_a;
  effect_id = effect_a;
  surface = ExecutionSurface.workflow;
  binding_reference = "sheet-1";
  bound_at_utc = utc 5;
}

bound_a : load_by_effect toy effect_a gates_1.bindings.tables ≡ ok (some binding_a)
unfolding gate_runs
bound_a = refl

bind-immutable_example :
    load_by_effect toy effect_a
      (bind toy (record binding_a { surface = ExecutionSurface.mcp }) gates_1.bindings).1.tables
    ≡ ok (some binding_a)
bind-immutable_example =
    bind-immutable toy (record binding_a { surface = ExecutionSurface.mcp }) gates_1.bindings
      effect_a binding_a bound_a
