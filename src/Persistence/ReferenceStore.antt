-- ===== src/Persistence/ReferenceStore.antt =====
-- src/nexus_vector/persistence/sqlite_provider_execution_reference_store.py: the append-only journal
-- of provider references. A row has the columns of `provider_execution_references`; `attempt_id` is the
-- primary key and (`provider_namespace`, `provider_reference`) is unique: the code tests both before
-- it inserts.
pub mod Appended
use nexus_vector_keeperhub.Prelude.{
  ℕ, String, Bool, not, ◌&&◌, Option, none, some, List, [], ◌∷◌, ◌==◌, find, nat_eq, if◌then◌else◌,
}
use nexus_vector_keeperhub.Errors.{
  Error, ErrorClass, Code, Result, ok, err, fail, ◌>>=◌, ◌>>◌, reject_if, map_err,
}
use nexus_vector_keeperhub.Clock.{Datetime, utc, require_utc}
use nexus_vector_keeperhub.Runtime.{Runtime}
use nexus_vector_keeperhub.Reference.{
  ProviderReference, make_reference, validate_attempt_id, normalize_provider_namespace,
  normalize_provider_reference,
}
use nexus_vector_keeperhub.Persistence.Database.{Database, write, read}

pub record ReferenceRow : Type 0 where
  pub attempt_id : String
  pub provider_namespace : String
  pub request_fingerprint : String
  pub provider_reference : String
  pub created_at : ℕ

abbrev pub ReferenceDb : Type 0
ReferenceDb = Database (List ReferenceRow)

-- `_serialize_timestamp`
abbrev pub serialize : Datetime → Result ℕ
serialize t = do u ← require_utc ErrorClass.reference_store t; ok u.instant

-- `except ProviderExecutionReferenceError as error: _fail(error.code)`, in `_write` and in
-- `_translate_validation`
unfoldable pub translate : Error → Error
translate e = elim e.class [
  | ErrorClass.reference ↦ record { class = ErrorClass.reference_store; code = e.code }
  | _ ↦ e
]

-- The `except` clause of `_load`: an invalid reference, and a timestamp that `_parse_timestamp`
-- would refuse, are corruption.
unfoldable pub corrupt : Error → Error
corrupt e = elim e.class [
  | ErrorClass.reference ↦ record { class = ErrorClass.reference_store; code = Code.corrupt_record }
  | _ ↦ e
]

-- `existing == record`: the fields of the two dataclasses; timestamps are equal as instants.
unfoldable pub same_reference : ProviderReference → ProviderReference → Bool
same_reference a b =
    a.attempt_id == b.attempt_id
    && a.provider_namespace == b.provider_namespace
    && a.request_fingerprint == b.request_fingerprint
    && a.provider_reference == b.provider_reference
    && nat_eq a.created_at_utc.instant b.created_at_utc.instant

-- `if stored is None: _fail("DATABASE_ERROR")`
abbrev pub require_stored : Option ProviderReference → Result ProviderReference
require_stored none = fail ErrorClass.reference_store Code.database_error
require_stored (some r) = ok r

-- `initialize` on a database that has the schema already: its transaction changes nothing.
unfoldable pub initialize : ReferenceDb → Result (Unit {0}) × ReferenceDb
initialize = write ErrorClass.reference_store translate (λ t. ok (tt, t))

-- The row with the provider's own name of the execution.
abbrev pub row_named : String → String → List ReferenceRow → Option ReferenceRow
row_named namespace reference = find (λ (row : ReferenceRow).
    row.provider_namespace == namespace && row.provider_reference == reference)

module _ (rt : Runtime) where
  abbrev pub decode : Option ReferenceRow → Result (Option ProviderReference)
  decode none = ok none
  decode (some row) = do
    r ← map_err corrupt (
        make_reference rt (record {
          attempt_id = row.attempt_id;
          provider_namespace = row.provider_namespace;
          request_fingerprint = row.request_fingerprint;
          provider_reference = row.provider_reference;
          created_at_utc = utc row.created_at;
        }))
    ok (some r)

  unfoldable pub load : String → List ReferenceRow → Result (Option ProviderReference)
  load id t = decode (find (λ (row : ReferenceRow). row.attempt_id == id) t)

  -- The insertion of `create`, where the attempt has no reference yet.
  unfoldable pub insert_reference :
      ProviderReference → List ReferenceRow → Result (ProviderReference × List ReferenceRow)
  insert_reference r t = elim (row_named r.provider_namespace r.provider_reference t) [
    | some _ ↦ fail ErrorClass.reference_store Code.provider_reference_conflict
    | none ↦ do
      at ← serialize r.created_at_utc
      let row : ReferenceRow = record {
        attempt_id = r.attempt_id;
        provider_namespace = r.provider_namespace;
        request_fingerprint = r.request_fingerprint;
        provider_reference = r.provider_reference;
        created_at = at;
      }
      found ← load r.attempt_id (row ∷ t)
      stored ← require_stored found
      ok (stored, row ∷ t)
  ]

  abbrev pub create_found :
      ProviderReference
      → Option ProviderReference
      → List ReferenceRow
      → Result (ProviderReference × List ReferenceRow)
  create_found r none t = insert_reference r t
  create_found r (some existing) t =
      if same_reference existing r
      then ok (existing, t)
      else fail ErrorClass.reference_store Code.provider_reference_conflict

  unfoldable pub create_operation :
      ProviderReference → List ReferenceRow → Result (ProviderReference × List ReferenceRow)
  create_operation r t = do existing ← load r.attempt_id t; create_found r existing t

  unfoldable pub create : ProviderReference → ReferenceDb → Result ProviderReference × ReferenceDb
  create r = write ErrorClass.reference_store translate (create_operation r)

  abbrev pub get_checked :
      Result String → ReferenceDb → Result (Option ProviderReference) × ReferenceDb
  get_checked (err e) db = (err (translate e), db)
  get_checked (ok id) db = read ErrorClass.reference_store (load id) db

  unfoldable pub get : String → ReferenceDb → Result (Option ProviderReference) × ReferenceDb
  get id db = get_checked (validate_attempt_id id) db

  abbrev pub load_named : String → String → List ReferenceRow → Result (Option ProviderReference)
  load_named namespace reference t = elim (row_named namespace reference t) [
    | none ↦ ok none
    | some row ↦ load row.attempt_id t
  ]

  abbrev pub get_named :
      Result (String × String) → ReferenceDb → Result (Option ProviderReference) × ReferenceDb
  get_named (err e) db = (err (translate e), db)
  get_named (ok (namespace, reference)) db =
      read ErrorClass.reference_store (load_named namespace reference) db

  unfoldable pub get_by_provider_reference :
      String → String → ReferenceDb → Result (Option ProviderReference) × ReferenceDb
  get_by_provider_reference namespace reference db =
      get_named
        (do
          n ← normalize_provider_namespace rt namespace
          r ← normalize_provider_reference rt reference
          ok (n, r))
        db
