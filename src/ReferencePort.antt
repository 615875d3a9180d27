-- ===== src/ReferencePort.antt =====
-- src/nexus_vector/application/provider_reference_port.py: the port that journals the reference of the
-- provider before it lets a dispatch acknowledge the attempt. The provider port is a protocol, so it is
-- a parameter; the state is the journal and the state of that port.
pub mod Journaled
use nexus_vector_keeperhub.Prelude.{
  ℕ, String, Bool, true, false, not, Option, none, some, List, [], ◌∷◌, ◌==◌, if◌then◌else◌,
}
use nexus_vector_keeperhub.Errors.{Error, ErrorClass, Code, Result, ok, err, fail, map_err}
use nexus_vector_keeperhub.Calls.{Call, ◌>>=◌, ◌>>◌, pure, lift, raise}
use nexus_vector_keeperhub.Runtime.{Runtime}
use nexus_vector_keeperhub.Reference.{ProviderReference, make_reference}
use nexus_vector_keeperhub.Attempt.{AttemptRecord}
use nexus_vector_keeperhub.Persistence.ReferenceStore.{ReferenceDb, initialize, get, create}
use nexus_vector_keeperhub.Dispatch.{PortOutcome, PortReply, Port}

-- `ProviderExecutionResult`: its constructor wants a reference that is not empty for ACCEPTED, and
-- none for REJECTED_FINAL.
pub data ProviderResult : Type 0 where
  accepted_as : String → ProviderResult
  rejected : ProviderResult

-- `ProviderExecutionResult(...)`: the checks of `__post_init__`
unfoldable pub make_result : PortOutcome → Option String → Result ProviderResult
make_result PortOutcome.accepted (some reference) =
    if reference == ""
    then fail ErrorClass.reference_port Code.missing_provider_reference
    else ok (ProviderResult.accepted_as reference)
make_result PortOutcome.accepted none =
    fail ErrorClass.reference_port Code.missing_provider_reference
make_result PortOutcome.rejected_final none = ok ProviderResult.rejected
make_result PortOutcome.rejected_final (some reference) =
    fail ErrorClass.reference_port Code.unexpected_provider_reference

-- What the provider port returns: a result, or any other object.
pub data ProviderReply : Type 0 where
  result : ProviderResult → ProviderReply
  not_a_result : ProviderReply

abbrev pub ProviderPort : Type 0 → Type 0
ProviderPort Q = AttemptRecord → Call Q ProviderReply

pub record Journal (Q : Type 0) : Type 0 where
  pub references : ReferenceDb
  pub provider : Q

-- `except SQLiteProviderExecutionReferenceStoreError as error`
unfoldable pub store_error : Error → Error
store_error e = elim e.class [
  | ErrorClass.reference_store ↦ record { class = ErrorClass.reference_port; code = e.code }
  | _ ↦ e
]

-- `except ProviderExecutionReferenceError as error`
unfoldable pub reference_error : Error → Error
reference_error e = elim e.class [
  | ErrorClass.reference ↦ record { class = ErrorClass.reference_port; code = e.code }
  | _ ↦ e
]

-- The reference of an attempt that the provider has accepted.
abbrev pub reference_of : AttemptRecord → String → ProviderReference
reference_of attempt reference = record {
  attempt_id = attempt.attempt_id;
  provider_namespace = attempt.plan.provider_namespace;
  request_fingerprint = attempt.plan.request_fingerprint;
  provider_reference = reference;
  created_at_utc = attempt.updated_at_utc;
}

module _ {Q : Type 0} where
  abbrev pub on_references : {A : Type 0} → Call ReferenceDb A → Call (Journal Q) A
  on_references m s = let (r, db) = m s.references in (r, record s { references = db })

  -- `self._provider_port.execute(attempt)`
  abbrev pub on_provider : {A : Type 0} → Call Q A → Call (Journal Q) A
  on_provider m s = let (r, q) = m s.provider in (r, record s { provider = q })

  abbrev guarded : {A : Type 0} → Call (Journal Q) A → Call (Journal Q) A
  guarded m s = let (r, s') = m s in (map_err store_error r, s')

module _ {Q : Type 0} (rt : Runtime) where
  -- The first `try` of `execute`.
  unfoldable pub look_up : AttemptRecord → Call (Journal Q) (Option ProviderReference)
  look_up attempt = guarded (do on_references initialize; on_references (get rt attempt.attempt_id))

  -- `execute` after the provider port has returned
  unfoldable pub settle_reply : AttemptRecord → ProviderReply → Call (Journal Q) PortOutcome
  settle_reply attempt ProviderReply.not_a_result =
      raise ErrorClass.reference_port Code.invalid_provider_result
  settle_reply attempt (ProviderReply.result ProviderResult.rejected) =
      pure PortOutcome.rejected_final
  settle_reply attempt (ProviderReply.result (ProviderResult.accepted_as reference)) = do
    r ← lift (map_err reference_error (make_reference rt (reference_of attempt reference)))
    stored ← on_references (create rt r)
    pure PortOutcome.accepted

  abbrev pub when_new :
      Call (Journal Q) PortOutcome → Option ProviderReference → Call (Journal Q) PortOutcome
  when_new rest none = rest
  when_new rest (some _) = raise ErrorClass.reference_port Code.provider_reference_already_exists

  unfoldable pub execute : String → ProviderPort Q → AttemptRecord → Call (Journal Q) PortOutcome
  execute namespace port attempt =
      if not (attempt.plan.provider_namespace == namespace)
      then raise ErrorClass.reference_port Code.provider_namespace_mismatch
      else do
        existing ← look_up attempt
        when_new (do reply ← on_provider (port attempt); settle_reply attempt reply) existing

-- The port as a dispatch sees it: whatever it raises, the dispatch catches.
abbrev pub reply_of : Result PortOutcome → PortReply
reply_of (ok outcome) = PortReply.replied outcome
reply_of (err e) = PortReply.raised

abbrev pub as_port : {Q : Type 0} → Runtime → String → ProviderPort Q → Port (Journal Q)
as_port rt namespace port attempt s =
    let (r, s') = execute rt namespace port attempt s in (reply_of r, s')
