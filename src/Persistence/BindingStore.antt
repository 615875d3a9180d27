-- ===== src/Persistence/BindingStore.antt =====
-- src/nexus_vector/persistence/sqlite_execution_surface_binding_store.py: one surface for each
-- effect. A row has the columns of `execution_surface_bindings`; `effect_id` is the primary key and
-- `binding_reference` is unique: the code tests both before it inserts.
pub mod Immutable
use nexus_vector_keeperhub.Prelude.{
  ℕ, String, Bool, not, Option, none, some, List, [], ◌∷◌, ◌==◌, find, if◌then◌else◌,
}
use nexus_vector_keeperhub.Errors.{
  Error, ErrorClass, Code, Result, ok, fail, ◌>>=◌, ◌>>◌, reject_if, map_err,
}
use nexus_vector_keeperhub.Clock.{Datetime, utc, require_utc}
use nexus_vector_keeperhub.Runtime.{Runtime}
use nexus_vector_keeperhub.Attempt.{is_effect_id}
use nexus_vector_keeperhub.Surface.{ExecutionSurface, Binding, same_surface, make_binding}
use nexus_vector_keeperhub.Persistence.Database.{Database, write, read}

pub record BindingRow : Type 0 where
  pub effect_id : String
  pub mission_key : String
  pub surface : ExecutionSurface
  pub binding_reference : String
  pub bound_at : ℕ

abbrev pub BindingDb : Type 0
BindingDb = Database (List BindingRow)

abbrev reject : Bool → Code → Result (Unit {0})
reject bad c = reject_if bad ErrorClass.surface_store c

abbrev pub serialize : Datetime → Result ℕ
serialize t = do u ← require_utc ErrorClass.surface_store t; ok u.instant

-- The `except` clauses of `_write`: an invalid binding is a conflict.
unfoldable pub translate : Error → Error
translate e = elim e.class [
  | ErrorClass.surface ↦ record {
    class = ErrorClass.surface_store;
    code = Code.surface_binding_conflict;
  }
  | _ ↦ e
]

-- The `except` clauses of `_decode`: the store's own errors pass, all others are corruption.
unfoldable pub corrupt : Error → Error
corrupt e = elim e.class [
  | ErrorClass.surface_store ↦ e
  | _ ↦ record { class = ErrorClass.surface_store; code = Code.corrupt_record }
]

-- `if stored is None: _fail("DATABASE_ERROR")`
abbrev pub require_stored : Option Binding → Result Binding
require_stored none = fail ErrorClass.surface_store Code.database_error
require_stored (some b) = ok b

-- `initialize` on a database that has the schema already: its transaction changes nothing.
unfoldable pub initialize : BindingDb → Result (Unit {0}) × BindingDb
initialize = write ErrorClass.surface_store translate (λ t. ok (tt, t))

module _ (rt : Runtime) where
  abbrev pub decode : Option BindingRow → Result (Option Binding)
  decode none = ok none
  decode (some row) = do
    b ← map_err corrupt (
        make_binding rt (record {
          mission_key = row.mission_key;
          effect_id = row.effect_id;
          surface = row.surface;
          binding_reference = row.binding_reference;
          bound_at_utc = utc row.bound_at;
        }))
    ok (some b)

  unfoldable pub load_by_effect : String → List BindingRow → Result (Option Binding)
  load_by_effect id t = decode (find (λ (row : BindingRow). row.effect_id == id) t)

  unfoldable pub load_by_reference : String → List BindingRow → Result (Option Binding)
  load_by_reference ref t = decode (find (λ (row : BindingRow). row.binding_reference == ref) t)

  -- The insertion of `bind`, where the effect is not bound yet.
  unfoldable pub insert_binding : Binding → List BindingRow → Result (Binding × List BindingRow)
  insert_binding b t = do
    owner ← load_by_reference b.binding_reference t
    elim owner [
      | some _ ↦ fail ErrorClass.surface_store Code.binding_reference_conflict
      | none ↦ do
        at ← serialize b.bound_at_utc
        let row : BindingRow = record {
          effect_id = b.effect_id;
          mission_key = b.mission_key;
          surface = b.surface;
          binding_reference = b.binding_reference;
          bound_at = at;
        }
        found ← load_by_effect b.effect_id (row ∷ t)
        stored ← require_stored found
        ok (stored, row ∷ t)
    ]

  abbrev pub bind_found :
      Binding → Option Binding → List BindingRow → Result (Binding × List BindingRow)
  bind_found b none t = insert_binding b t
  bind_found b (some existing) t = do
    reject (not (existing.mission_key == b.mission_key)) Code.surface_binding_conflict
    reject (not (same_surface existing.surface b.surface)) Code.surface_binding_conflict
    ok (existing, t)

  unfoldable pub bind_operation : Binding → List BindingRow → Result (Binding × List BindingRow)
  bind_operation b t = do existing ← load_by_effect b.effect_id t; bind_found b existing t

  unfoldable pub bind : Binding → BindingDb → Result Binding × BindingDb
  bind b = write ErrorClass.surface_store translate (bind_operation b)

  unfoldable pub get : String → BindingDb → Result (Option Binding) × BindingDb
  get id db =
      if is_effect_id id
      then read ErrorClass.surface_store (load_by_effect id) db
      else (fail ErrorClass.surface_store Code.invalid_effect_id, db)
