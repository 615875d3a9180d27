-- ===== src/Errors.antt =====
-- Exceptions as values. Each module of src/nexus_vector has an exception class of its own, which
-- holds one machine-readable `code`: an `except` clause tells the classes apart (`ErrorClass`),
-- and some of them read the code. A call that may raise returns a `Result`; a method that changes
-- an object is a `Call` on the state it changes, and what it wrote before a raise stays written.
use nexus_vector_keeperhub.Prelude.{ap, ◌≡◌, ◌⊎◌, inl, inr, refl, Bool, true, false, if◌then◌else◌}

-- The class of an exception; `foreign` is any class from outside the program.
pub data ErrorClass : Type 0 where
  identity mission_model mission_transition mission_store : ErrorClass
  attempt attempt_store dispatch reconciliation planning admission evidence : ErrorClass
  surface surface_store surface_gate reference reference_store reference_port : ErrorClass
  ledger controlled direct request_key doctor chain : ErrorClass
  foreign : ErrorClass

-- The codes, as the program spells them, in lower case. `request_` and `effect_` are the prefixes
-- that `_wrap_identity_error` puts before a code of the identity module.
pub data Code : Type 0 where
  invalid_timestamp non_utc_timestamp reversed_timestamp timestamp_before_current : Code
  missing_required_field unknown_field invalid_string empty_string invalid_address : Code
  unsupported_schema_version invalid_document_shape invalid_asset_shape invalid_effects_shape : Code
  empty_effects invalid_effect_shape duplicate_effect_ref invalid_amount_base_units : Code
  invalid_chain_id invalid_decimals invalid_mission_key : Code
  invalid_token_address invalid_token_decimals invalid_effect_ref invalid_recipient : Code
  invalid_mission_namespace invalid_mission_ref invalid_mission_type : Code
  schema_version_mismatch mission_key_mismatch content_fingerprint_mismatch : Code
  missing_effect_ref unexpected_effect_ref effect_mission_key_mismatch : Code
  effect_created_before_mission effect_updated_after_mission effect_id_mismatch : Code
  effect_economic_mismatch unknown_effect_ref identity_effect_set_mismatch : Code
  mission_transition_not_allowed mission_completion_requires_confirmed_effects : Code
  effect_transition_not_allowed invalid_initial_aggregate mission_conflict : Code
  invalid_effect_id invalid_provider_namespace invalid_request_key : Code
  invalid_request_fingerprint invalid_attempt_id attempt_id_mismatch : Code
  attempt_transition_not_allowed invalid_initial_attempt execution_attempt_conflict : Code
  attempt_not_found stale_revision corrupt_record database_error : Code
  mission_not_found mission_not_ready_for_execution effect_not_found : Code
  effect_not_dispatchable reconciliation_required execution_outcome_unknown : Code
  invalid_effects invalid_effect_amount duplicate_effect_id attempt_effect_mismatch : Code
  attempt_mission_mismatch unclassified_mission_state unclassified_effect_state : Code
  continuation_total_mismatch effect_classification_incomplete : Code
  admission_cas_exhausted admission_not_persisted : Code
  invalid_minimum_confirmations verification_outcome_unknown attempt_cas_exhausted : Code
  mission_cas_exhausted effect_cas_exhausted effect_terminal_contradiction : Code
  attempt_terminal_contradiction mission_not_reconcilable invalid_expected_sender : Code
  surface_binding_conflict binding_reference_conflict invalid_binding_reference : Code
  attempt_not_in_flight surface_binding_mismatch : Code
  provider_reference_conflict invalid_provider_reference provider_namespace_mismatch : Code
  provider_reference_already_exists missing_provider_reference : Code
  unexpected_provider_reference unexpected : Code
  invalid_sender invalid_transaction_hash invalid_block_hash missing_verified_transfer : Code
  unexpected_transfer : Code
  invalid_approval_reference invalid_action_sheet_id invalid_body_fingerprint : Code
  invalid_claim_timestamp claim_state_required authorization_already_consumed : Code
  authorization_not_found authorization_already_finalized : Code
  authorization_transition_not_allowed invalid_provider_result : Code
  invalid_simulation_approval invalid_broadcast_approval invalid_authorized_at : Code
  invalid_expires_at invalid_simulated_at invalid_approved_at invalid_broadcast_at : Code
  invalid_authorization_window invalid_simulation_body_fingerprint : Code
  invalid_broadcast_runtime_flag simulation_receipt_not_found : Code
  simulation_receipt_not_final request_fingerprint_mismatch : Code
  simulation_authorization_mismatch simulation_authorization_expired : Code
  simulation_outcome_unknown observation_set_mismatch invalid_observation : Code
  unexpected_confirmations empty_diagnoses unclassified_report_action : Code
  unclassified_continuation_action : Code
  invalid_simulation_classification simulation_receipt_persistence_failed : Code
  simulation_not_eligible approval_reference_reuse broadcast_authorization_mismatch : Code
  broadcast_approved_before_simulation simulation_body_fingerprint_mismatch : Code
  simulation_receipt_mismatch broadcast_attempt_mismatch broadcast_authorization_expired : Code
  broadcast_outcome_unknown invalid_broadcast_classification : Code
  duplicate_normalized_key unsupported_testnet_chain invalid_recipient_address : Code
  invalid_gas_limit_multiplier invalid_simulation_response invalid_simulation_rejection : Code
  invalid_simulation_status invalid_broadcast_response invalid_execution_id : Code
  invalid_broadcast_status : Code
  invalid_rpc_chain_id wrong_rpc_chain invalid_transaction_receipt : Code
  invalid_receipt_transaction_hash receipt_transaction_hash_mismatch invalid_receipt_status : Code
  transaction_reverted invalid_receipt_block_number invalid_receipt_block_hash : Code
  invalid_latest_block_number latest_block_before_receipt invalid_receipt_logs : Code
  invalid_log_token_address invalid_transfer_topic_count invalid_transfer_sender_topic : Code
  invalid_transfer_recipient_topic invalid_transfer_amount_data invalid_transfer_log_index : Code
  invalid_transfer_block_number invalid_transfer_block_hash : Code
  invalid_transfer_transaction_hash transfer_receipt_binding_mismatch : Code
  invalid_expected_token invalid_expected_recipient invalid_expected_amount : Code
  request_ effect_ : Code → Code

pub record Error : Type 0 where
  pub class : ErrorClass
  pub code : Code

-- `error.code == "STALE_REVISION"`
abbrev pub is_stale : Code → Bool
is_stale Code.stale_revision = true
is_stale _ = false

abbrev pub is_attempt_store : ErrorClass → Bool
is_attempt_store ErrorClass.attempt_store = true
is_attempt_store _ = false

abbrev pub is_mission_store : ErrorClass → Bool
is_mission_store ErrorClass.mission_store = true
is_mission_store _ = false

-- What a call comes back with: an exception or a value.
pub data Result {ℓ} (Value : Type ℓ) : Type ℓ where
  err : Error → Result Value
  ok : Value → Result Value

-- `raise Class(code)`
abbrev pub fail {ℓ} : {A : Type ℓ} → ErrorClass → Code → Result A
fail c k = err (record { class = c; code = k })

-- The rest of a body runs on the value that the call before it returned; an exception skips it.
module _ {ℓ κ} {Value : Type ℓ} {Next : Type κ} where
  infixl 5 ◌>>=◌
  abbrev pub ◌>>=◌ : Result Value → (Value → Result Next) → Result Next
  err raised >>= rest = err raised
  ok value >>= rest = rest value

-- A guard, and the rest of the body where it holds.
module _ {κ} {Next : Type κ} where
  infixl 5 ◌>>◌
  abbrev pub ◌>>◌ : Result (Unit {0}) → Result Next → Result Next
  guard >> rest = guard >>= λ _. rest

-- `if bad: raise Class(code)`
abbrev pub reject_if : Bool → ErrorClass → Code → Result (Unit {0})
reject_if bad c k = if bad then fail c k else ok tt

-- `except Error as error: raise f(error)`
abbrev pub map_err {ℓ} : {A : Type ℓ} → (Error → Error) → Result A → Result A
map_err f (ok a) = ok a
map_err f (err e) = err (f e)

pub Result-cases {ℓ} :
    {A : Type ℓ} (r : Result A) → ((e : Error) × (r ≡ err e)) ⊎ ((a : A) × (r ≡ ok a))
Result-cases (ok a) = inr (a, refl)
Result-cases (err e) = inl (e, refl)

-- A body that returns: the call before returned, and so did the rest on its value.
pub bind-ok {ℓ κ μ} :
    {A : Type ℓ} {B : Type κ} {C : Type μ} (x : Result A) (rest : A → Result B) {b : B}
    → (x >>= rest) ≡ ok b
    → ((a : A) → x ≡ ok a → rest a ≡ ok b → C)
    → C
bind-ok (ok a) rest h use_parts = use_parts a refl h
bind-ok (err e) rest h use_parts = absurd (cc)

-- A guard that was passed.
pub guard-ok {κ} :
    {B : Type κ} (bad : Bool) (c : ErrorClass) (k : Code) (rest : Result B) {b : B}
    → (reject_if bad c k >> rest) ≡ ok b
    → (bad ≡ false) × (rest ≡ ok b)
guard-ok false c k rest h = (refl, h)
guard-ok true c k rest h = absurd (cc)

pub map_err-ok {ℓ} :
    {A : Type ℓ} (f : Error → Error) (x : Result A) {a : A} → map_err f x ≡ ok a → x ≡ ok a
map_err-ok f (ok a) h = h
map_err-ok f (err e) h = absurd (cc)

pub ok_injective {ℓ} : {A : Type ℓ} {a b : A} → ok a ≡ ok b → a ≡ b
ok_injective {A} {a} {b} h = ap (elim [ ok x ↦ x | err e ↦ a ]) h
