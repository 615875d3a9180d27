-- ===== src/Tests/References.antt =====
-- The journal of references, and the three ports together, at concrete inputs.
use nexus_vector_keeperhub.Prelude.{ℕ, suc, ◌≡◌, refl, ◌⊎◌, some, [], ◌∷◌}
use nexus_vector_keeperhub.Errors.{Error, ok, err}
use nexus_vector_keeperhub.Clock.{utc}
use nexus_vector_keeperhub.Attempt.{AttemptRecord}
use nexus_vector_keeperhub.Attempt.States.{AttemptState}
use nexus_vector_keeperhub.Reference.{
  ProviderReference, validate_attempt_id, validate_request_fingerprint, reference_text,
  normalize_provider_namespace, normalize_provider_reference, make_reference,
}
use nexus_vector_keeperhub.Persistence.AttemptStore.{StoredAttempt}
use nexus_vector_keeperhub.Persistence.ReferenceStore.{
  initialize, translate, corrupt, same_reference, load, insert_reference, create_operation, create,
  get,
}
use nexus_vector_keeperhub.Persistence.ReferenceStore.Appended.{
  NamesDistinct, create-append_only, create-NamesDistinct,
}
use nexus_vector_keeperhub.Dispatch.{World, dispatch}
use nexus_vector_keeperhub.SurfaceGate.{GateState, Delegate}
use nexus_vector_keeperhub.ReferencePort.{
  ProviderResult, ProviderReply, ProviderPort, Journal, look_up, settle_reply, execute, store_error,
  reference_error,
}
use nexus_vector_keeperhub.ReferencePort.Journaled.{Asked, execute_journals}
use nexus_vector_keeperhub.Submission.{chain, Submitted, dispatch-Submitted}
use nexus_vector_keeperhub.Tests.Fixtures.{
  toy, executable, plan_a, attempt_a, prepared_a, ready_mission,
}
use nexus_vector_keeperhub.Tests.Surfaces.{gate_runs, flying_a, workflow_gate}

-- What a run of the ports computes through.
unfoldable reference_runs : Unit {0}
unfolding gate_runs executable validate_attempt_id validate_request_fingerprint reference_text
    normalize_provider_namespace normalize_provider_reference make_reference initialize translate
    corrupt same_reference load insert_reference create_operation create get look_up settle_reply
    execute store_error reference_error
reference_runs = tt

abbrev accepting : ProviderPort ℕ
accepting attempt n = (ok (ProviderReply.result (ProviderResult.accepted_as "execution-7")), suc n)

abbrev journal_0 : Journal ℕ
journal_0 = record { references = record { tables = []; faults = [] }; provider = 0 }

abbrev journal_1 : Journal ℕ
journal_1 = (execute toy "keeperhub" accepting flying_a journal_0).1

abbrev reference_7 : ProviderReference
reference_7 = record {
  attempt_id = attempt_a;
  provider_namespace = "keeperhub";
  request_fingerprint = plan_a.request_fingerprint;
  provider_reference = "execution-7";
  created_at_utc = utc 5;
}

journaled_7 : load toy attempt_a journal_1.references.tables ≡ ok (some reference_7)
unfolding reference_runs
journaled_7 = refl

execute_journals_example :
    let (r, s') = execute toy "keeperhub" accepting flying_a journal_0 in
    ((e : Error) × (r ≡ err e) × (s'.provider ≡ 0))
    ⊎ Asked toy "keeperhub" accepting flying_a journal_0 r s'
execute_journals_example = execute_journals toy (λ s. refl) "keeperhub" accepting flying_a journal_0

create-append_only_example :
    load toy attempt_a
      (create toy
        (record reference_7 { provider_reference = "execution-8" })
        journal_1.references).1.tables
    ≡ ok (some reference_7)
create-append_only_example =
    create-append_only toy (record reference_7 { provider_reference = "execution-8" })
      journal_1.references attempt_a reference_7 journaled_7

names_1 : NamesDistinct journal_1.references.tables
unfolding reference_runs
names_1 = (refl, tt)

create-NamesDistinct_example :
    NamesDistinct
      (create toy
        (record reference_7 {
          attempt_id = "att_bbbbbbbbbbbbbbbbbbbbbbbbbbbbbbbbbbbbbbbbbbbbbbbbbbbbbbbbbbbbbbbb";
        })
        journal_1.references).1.tables
create-NamesDistinct_example =
    create-NamesDistinct toy
      (record reference_7 {
        attempt_id = "att_bbbbbbbbbbbbbbbbbbbbbbbbbbbbbbbbbbbbbbbbbbbbbbbbbbbbbbbbbbbbbbbb";
      })
      journal_1.references names_1

-- The provider behind the gate.
abbrev behind_gate : Delegate ℕ ProviderReply
behind_gate attempt n =
    (ok (ProviderReply.result (ProviderResult.accepted_as "execution-7")), suc n)

abbrev world_0 : World (Journal (GateState ℕ))
world_0 = record {
  attempts = record { tables = []; faults = [] };
  provider = record {
    references = record { tables = []; faults = [] };
    provider = record {
      bindings = record { tables = []; faults = [] };
      delegate = 0;
      delegations = [];
    };
  };
  calls = [];
}

abbrev acknowledged_a : StoredAttempt
acknowledged_a = record {
  entry = record prepared_a { state = AttemptState.provider_acknowledged };
  revision = 3;
}

acknowledges :
    (dispatch toy plan_a
      (chain toy "keeperhub" workflow_gate behind_gate)
      (ok (some ready_mission))
      (utc 5)
      world_0).0
    ≡ ok acknowledged_a
unfolding reference_runs
acknowledges = refl

dispatch-Submitted_example :
    let w' =
      (dispatch toy plan_a
        (chain toy "keeperhub" workflow_gate behind_gate)
        (ok (some ready_mission))
        (utc 5)
        world_0).1 in
    (sent : AttemptRecord) × (w'.calls ≡ sent ∷ []) × Submitted toy workflow_gate sent w'.provider
dispatch-Submitted_example =
    dispatch-Submitted toy (λ s. refl) "keeperhub" workflow_gate behind_gate plan_a
      (ok (some ready_mission)) (utc 5) world_0 acknowledged_a acknowledges refl
