-- ===== src/BaseSepolia.antt =====
-- src/nexus_vector/integrations/base_sepolia_rpc_verification.py: one transaction is read from the chain,
-- and the transfer that it made is selected from the logs of its receipt. The transport of RPC is a
-- parameter with a state of its own, which may raise at each call. Of a receipt the members that the
-- code reads are here.
pub mod Fields
pub mod Logs
pub mod Readers
pub mod Transfers
pub mod Mined
pub mod Selection
pub mod Evidenced
pub mod Sound
use Prim.Native.String.{String}
use nexus_vector_keeperhub.Prelude.{
  ℕ, ◌+◌, ◌-◌, Bool, not, ◌&&◌, Option, none, some, List, [], ◌∷◌, ◌==◌, ltb, nat_eq, if◌then◌else◌,
}
use nexus_vector_keeperhub.Errors.{Code, Result, ok, ◌>>=◌, ◌>>◌}
use nexus_vector_keeperhub.Calls.{Call, proceed, lift}
use nexus_vector_keeperhub.Evidence.{
  ObservationStatus, ObservedTransfer, Observation, make_observation,
}
pub use nexus_vector_keeperhub.BaseSepolia.Fields.{Field, text, other, fail_chain, reject}
unfoldable pub use nexus_vector_keeperhub.BaseSepolia.Fields.{
  chain_address, chain_hash, digit_value, hex_value, match_quantity, hex_quantity, topic_address,
  uint256_data,
}
pub use nexus_vector_keeperhub.BaseSepolia.Logs.{
  Log, Entry, log, no_log, TransferVerifier, Block, is_transfer_topic, parse_topics,
}
unfoldable pub use nexus_vector_keeperhub.BaseSepolia.Logs.{
  small_x, read_transfer, parse_transfer_log, parse_logs,
}

-- `logs` is `none` where it is no list.
pub record Receipt : Type 0 where
  pub transaction_hash : Field
  pub status : Field
  pub block_number : Field
  pub block_hash : Field
  pub logs : Option (List Entry)

-- What `eth_getTransactionReceipt` comes back with: `None`, a mapping, or any other value.
pub data ReceiptReply : Type 0 where
  missing no_mapping : ReceiptReply
  receipt : Receipt → ReceiptReply

-- `transport.call`, for the three methods that are called.
pub record Rpc (Q : Type 0) : Type 0 where
  pub chain_id : Call Q Field
  pub transaction_receipt : String → Call Q ReceiptReply
  pub block_number : Call Q Field

-- `BaseSepoliaErc20TransferVerifier(...)`
unfoldable pub make_verifier : TransferVerifier → Result TransferVerifier
make_verifier v = do
  hash ← chain_hash (text v.transaction_hash) Code.invalid_transaction_hash
  token ← chain_address (text v.expected_token) Code.invalid_expected_token
  sender ← chain_address (text v.expected_sender) Code.invalid_expected_sender
  recipient ← chain_address (text v.expected_recipient) Code.invalid_expected_recipient
  reject (ltb v.expected_amount 1) Code.invalid_expected_amount
  ok (record v {
    transaction_hash = hash;
    expected_token = token;
    expected_sender = sender;
    expected_recipient = recipient;
  })

-- `[x for x in xs if p(x)]`
unfoldable pub filter_by {ℓ} : {A : Type ℓ} → (A → Bool) → List A → List A
filter_by p [] = []
filter_by p (x ∷ xs) = let rest = filter_by p xs in if p x then x ∷ rest else rest

unfoldable pub chain_match : TransferVerifier → ObservedTransfer → Bool
chain_match v t =
    t.token_address == v.expected_token
    && t.sender == v.expected_sender
    && t.recipient == v.expected_recipient
    && nat_eq t.amount_base_units v.expected_amount

-- What `_select_transfer` comes back with: a transfer, `None`, or `...`.
pub data Selected : Type 0 where
  one : ObservedTransfer → Selected
  nothing several : Selected

-- `xs[0] if len(xs) == 1 else ...`
abbrev pub only : List ObservedTransfer → Selected
only (t ∷ []) = one t
only _ = several

-- `_select_transfer`: among the transfers of the expected token, or among all where there is none.
abbrev pub select_among :
    TransferVerifier → List ObservedTransfer → List ObservedTransfer → Selected
select_among v everything (t ∷ []) = one t
select_among v everything (t ∷ u ∷ ts) = only (filter_by (chain_match v) (t ∷ u ∷ ts))
select_among v [] [] = nothing
select_among v (x ∷ xs) [] = only (x ∷ xs)

unfoldable pub select_transfer : TransferVerifier → List ObservedTransfer → Selected
select_transfer v transfers =
    select_among v transfers
      (filter_by (λ (t : ObservedTransfer). t.token_address == v.expected_token) transfers)

abbrev pub observation_of : Selected → Result Observation
observation_of nothing =
    make_observation (record { status = ObservationStatus.not_found; transfer = none })
observation_of several =
    make_observation (record { status = ObservationStatus.ambiguous; transfer = none })
observation_of (one t) =
    make_observation (record { status = ObservationStatus.verified_transfer; transfer = some t })

abbrev pub require_logs : Option (List Entry) → Result (List Entry)
require_logs none = fail_chain Code.invalid_receipt_logs
require_logs (some xs) = ok xs

-- The checks of the receipt up to its block.
unfoldable pub check_receipt : TransferVerifier → Receipt → Result (ℕ × String)
check_receipt v r = do
  hash ← chain_hash r.transaction_hash Code.invalid_receipt_transaction_hash
  reject (not (hash == v.transaction_hash)) Code.receipt_transaction_hash_mismatch
  status ← hex_quantity r.status Code.invalid_receipt_status
  reject (not (nat_eq status 1)) Code.transaction_reverted
  number ← hex_quantity r.block_number Code.invalid_receipt_block_number
  block_hash ← chain_hash r.block_hash Code.invalid_receipt_block_hash
  ok (number, block_hash)

-- The rest of `observe`, from the number of the latest block.
unfoldable pub judge_receipt : TransferVerifier → Receipt → ℕ × String → Field → Result Observation
judge_receipt v r place latest_field = do
  latest ← hex_quantity latest_field Code.invalid_latest_block_number
  reject (ltb latest place.0) Code.latest_block_before_receipt
  logs ← require_logs r.logs
  let block : Block = record {
    number = place.0;
    hash = place.1;
    confirmations = latest - place.0 + 1;
  }
  transfers ← parse_logs v block logs
  observation_of (select_transfer v transfers)

abbrev pub check_chain : Field → Result (Unit {0})
check_chain f = do
  id ← hex_quantity f Code.invalid_rpc_chain_id
  reject (not (nat_eq id 84532)) Code.wrong_rpc_chain

module _ {Q : Type 0} (rpc : Rpc Q) (v : TransferVerifier) where
  unfoldable pub observe_receipt : ReceiptReply → Call Q Observation
  observe_receipt missing q = (observation_of nothing, q)
  observe_receipt no_mapping q = (fail_chain Code.invalid_transaction_receipt, q)
  observe_receipt (receipt r) q =
      proceed
        (λ place q'.
          proceed (λ latest. lift (judge_receipt v r place latest)) (rpc.block_number q').0
            (rpc.block_number q').1)
        (check_receipt v r) q

  unfoldable pub observe : Call Q Observation
  observe q =
      let (c, q1) = rpc.chain_id q in
      proceed
        (λ f q2.
          proceed
            (λ u q3.
              let (reply, q4) = rpc.transaction_receipt v.transaction_hash q3 in
              proceed observe_receipt reply q4)
            (check_chain f) q2)
        c q1
