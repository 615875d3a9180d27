-- ===== src/Surface.antt =====
-- src/nexus_vector/domain/execution_surfaces.py: the choice of one surface of the provider for one
-- effect.
use nexus_vector_keeperhub.Prelude.{ℕ, String, Bool, not, nat_eq}
use nexus_vector_keeperhub.Errors.{ErrorClass, Code, Result, ok, ◌>>=◌, ◌>>◌, reject_if}
use nexus_vector_keeperhub.Clock.{Datetime, require_utc}
use nexus_vector_keeperhub.Runtime.{Runtime}
use nexus_vector_keeperhub.Plain.{plain_text}
use nexus_vector_keeperhub.Attempt.{is_mission_key, is_effect_id}

pub data ExecutionSurface : Type 0 where
  direct_execution workflow mcp : ExecutionSurface

abbrev surface_position : ExecutionSurface → ℕ
surface_position ExecutionSurface.direct_execution = 0
surface_position ExecutionSurface.workflow = 1
surface_position ExecutionSurface.mcp = 2

-- `a is b`
abbrev pub same_surface : ExecutionSurface → ExecutionSurface → Bool
same_surface a b = nat_eq (surface_position a) (surface_position b)

pub record Binding : Type 0 where
  pub mission_key : String
  pub effect_id : String
  pub surface : ExecutionSurface
  pub binding_reference : String
  pub bound_at_utc : Datetime

-- `ExecutionSurfaceBinding(...)`: the checks of `__post_init__`
unfoldable pub make_binding : Runtime → Binding → Result Binding
make_binding rt b = do
  reject_if (not (is_mission_key b.mission_key)) ErrorClass.surface Code.invalid_mission_key
  reject_if (not (is_effect_id b.effect_id)) ErrorClass.surface Code.invalid_effect_id
  reference ← plain_text rt ErrorClass.surface b.binding_reference Code.invalid_binding_reference
  at ← require_utc ErrorClass.surface b.bound_at_utc
  ok b
