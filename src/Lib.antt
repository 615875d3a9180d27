-- ===== src/Lib.antt =====
-- Nexus Vector: crash-safe execution of payment Missions through one provider.
--
-- A Mission is a request for several token transfers, its effects. The program admits it into a
-- SQLite store, plans how to continue it after a crash, dispatches each effect to a provider through
-- an attempt that is journaled before the provider is called, and reconciles an attempt whose
-- outcome is not known from independent evidence of the transfer. This library models the domain,
-- the stores and the services of src/nexus_vector as executable functions and shows what they
-- guarantee: a provider is called for an effect at most once, through one surface, under an approval
-- that is spent once; what it accepts is journaled before it is acknowledged; and nothing is
-- reported as verified or completed without evidence.
--
-- Files and the code that they model:
--   Errors, Calls: exceptions with their machine-readable codes, as values; a method call as a
--     function on the state that comes back beside a result or an exception.
--   Clock: timestamps with their zones, and the check that each module repeats.
--   Runtime: hashing, Unicode normal form C, white space, decimals and JSON, from Python's library,
--     as a parameter.
--   Plain: the check of an opaque reference, which several modules repeat.
--   Attempt and its children: src/nexus_vector/domain/execution_attempts.py (Attempt/Fingerprint is
--     the fingerprint of a request).
--   Mission/Identity, Mission/Text: src/nexus_vector/domain/mission_identity.py.
--   Mission/States, Mission/Records, Mission/Models, Mission/Initial:
--     src/nexus_vector/domain/mission_models.py, a function for each `__post_init__`.
--   Mission/Transitions and its children: src/nexus_vector/domain/mission_transitions.py.
--   Persistence/Database: `_read` and `_write`, the transactions that the stores repeat.
--   Persistence/WalMode: `_enable_wal_with_bounded_retry`, which the stores repeat.
--   Persistence/AttemptStore and its children:
--     src/nexus_vector/persistence/sqlite_execution_attempt_store.py.
--   Persistence/MissionTables, Persistence/MissionStore and its children:
--     src/nexus_vector/persistence/sqlite_mission_store.py (`move_mission` and `move_effect` are
--     `transition_mission` and `transition_effect`, `apply_operation` is `_transition`).
--   Admission: src/nexus_vector/application/mission_admission.py.
--   Dispatch: src/nexus_vector/application/execution_dispatch.py. `dispatch` is `prepare` (up to the
--     durable attempt), `claim` (to IN_FLIGHT), `call_port` and `settle` (what the reply leads to).
--     Dispatch/Workers cuts it at these points into the steps of workers that run side by side.
--   Surface: src/nexus_vector/domain/execution_surfaces.py.
--   Persistence/BindingStore and its child:
--     src/nexus_vector/persistence/sqlite_execution_surface_binding_store.py.
--   SurfaceGate: src/nexus_vector/application/execution_surface_gate.py. SurfaceGate/OneSurface lets
--     gates of all surfaces run on one store, a call at a time.
--   Reference: src/nexus_vector/domain/provider_execution_references.py.
--   Persistence/ReferenceStore and its child:
--     src/nexus_vector/persistence/sqlite_provider_execution_reference_store.py.
--   ReferencePort: src/nexus_vector/application/provider_reference_port.py.
--   Submission: a dispatch over the reference port over the gate over the provider.
--   Persistence/AuthorizationLedger and its children:
--     src/nexus_vector/persistence/sqlite_keeperhub_authorization_ledger.py.
--   KeeperHub/Amounts, KeeperHub/Intent, KeeperHub/Replies:
--     src/nexus_vector/integrations/keeperhub_direct_execution.py and keeperhub_request_key.py.
--   KeeperHub/Approvals, KeeperHub/Controlled, KeeperHub/Broadcast:
--     src/nexus_vector/integrations/keeperhub_controlled_execution.py; KeeperHub/OnePost lets
--     simulations and broadcasts run on one ledger, a call at a time.
--   Continuation: src/nexus_vector/application/continuation_planner.py.
--   Doctor: src/nexus_vector/application/execution_doctor.py.
--   Evidence: src/nexus_vector/domain/verification_evidence.py.
--   BaseSepolia and its children:
--     src/nexus_vector/integrations/base_sepolia_rpc_verification.py.
--   Reconciliation, Reconciliation/Steps:
--     src/nexus_vector/application/execution_reconciliation.py.
--   Tests: runs at concrete inputs, with a toy digest.
--
-- Conventions. A field that the program requires to be an integer from 0 or 1 upwards is a natural
-- number, and arguments have the types that the source annotates, so `isinstance` guards hold and
-- are left out; every other guard stands in its place and order. A column of a table holds the value
-- that its text stands for: an instant to the microsecond, a state, the document of a request.
-- A database is the tables of one store and a list that says in which later transactions the engine
-- raises; a transaction that raises keeps the tables. The order and the effect of an SQL statement
-- are written out as functions on lists of rows, uniqueness constraints included. A dictionary that
-- is built from a list keeps the last of equal keys.
--
-- Bounds. The loops of compare-and-swap run on the constants of the source, 12 steps for a
-- reconciliation and 4 for an admission, and raise when these are used up, as the source does. The
-- digits of a number are written with one more step than the number is great, and a number has not
-- more digits than that. No other recursion is bounded: it follows a list.
--
-- Parameters. The provider port, the delegate of a gate, the transports, the Mission lookup of a
-- dispatch, the attempt lookup of the planner and the verifier are protocols in the source, and
-- arguments here. Within one call of admission, reconciliation, a gate, a simulation or a broadcast
-- no other process writes; a dispatch is modelled with other writers between all of its steps.
--
-- Not modelled: the creation and validation of database schemas (`initialize` acts on a database that
-- has its schema), malformed text in a column, HTTP and RPC, the reading of a provider status, the
-- direct port that simulates without approvals, the plan of runtime evidence, the command line, the
-- consoles and the tools.
pub mod Prelude
pub mod Errors
pub mod Calls
pub mod Clock
pub mod Runtime
pub mod Mission
pub mod Attempt
pub mod Plain
pub mod Surface
pub mod Doctor
pub mod Persistence
pub mod Dispatch
pub mod Continuation
pub mod SurfaceGate
pub mod Reference
pub mod ReferencePort
pub mod Submission
pub mod KeeperHub
pub mod Admission
pub mod Evidence
pub mod BaseSepolia
pub mod Reconciliation
mod Tests
