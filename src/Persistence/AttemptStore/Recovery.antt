-- ===== src/Persistence/AttemptStore/Recovery.antt =====
-- src/nexus_vector/persistence/sqlite_execution_attempt_store.py: `list_recovery_candidates`.
use nexus_vector_keeperhub.Prelude.{List, [], ◌∷◌, if◌then◌else◌}
use nexus_vector_keeperhub.Prelude.Sorting.{sort_by}
use nexus_vector_keeperhub.Errors.{ErrorClass, Code, Result, ok, ◌>>=◌}
use nexus_vector_keeperhub.Runtime.{Runtime}
use nexus_vector_keeperhub.Attempt.States.{is_recovery}
use nexus_vector_keeperhub.Persistence.Database.{read}
use nexus_vector_keeperhub.Persistence.AttemptStore.{
  AttemptRow, AttemptTable, AttemptDb, StoredAttempt, load, require_found,
}

-- `SELECT attempt_id ... WHERE state IN (...)`
abbrev recovery_rows : AttemptTable → List AttemptRow
recovery_rows [] = []
recovery_rows (row ∷ t) =
    let rest = recovery_rows t in if is_recovery row.state then row ∷ rest else rest

module _ (rt : Runtime) where
  abbrev load_all : List AttemptRow → AttemptTable → Result (List StoredAttempt)
  load_all [] t = ok []
  load_all (row ∷ rows) t = do
    found ← load rt row.attempt_id t
    s ← require_found Code.corrupt_record found
    rest ← load_all rows t
    ok (s ∷ rest)

  unfoldable pub list_recovery_candidates : AttemptDb → Result (List StoredAttempt) × AttemptDb
  list_recovery_candidates =
      read ErrorClass.attempt_store
        (λ t. load_all (sort_by (λ (row : AttemptRow). row.attempt_id) (recovery_rows t)) t)
