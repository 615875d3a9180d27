-- ===== src/BaseSepolia/Logs.antt =====
-- src/nexus_vector/integrations/base_sepolia_rpc_verification.py: the transfers that the logs of a receipt
-- hold. Of a log the members that the code reads are here.
use nexus_vector_keeperhub.BaseSepolia.Fields.{
  Field, text, other, fail_chain, reject, chain_address, chain_hash, hex_quantity, topic_address,
  uint256_data,
}
use Prim.Native.Char.{code}
use Prim.Native.String.{String}
use nexus_vector_keeperhub.Prelude.{
  ℕ, Bool, false, not, ◌&&◌, ◌||◌, Option, none, some, List, [], ◌∷◌, ◌==◌, nat_eq, if◌then◌else◌,
}
use nexus_vector_keeperhub.Errors.{ErrorClass, Code, Result, ok, err, ◌>>=◌, ◌>>◌}
use nexus_vector_keeperhub.Mission.Text.{is_address, lower}
use nexus_vector_keeperhub.Evidence.{ObservedTransfer, make_transfer}

pub record Log : Type 0 where
  pub topics : Option (List Field)
  pub address : Field
  pub data_field : Field
  pub log_index : Field
  pub block_number : Field
  pub block_hash : Field
  pub transaction_hash : Field

-- An element of `logs`: a mapping, or any other value.
pub data Entry : Type 0 where
  log : Log → Entry
  no_log : Entry

-- The fields of a `BaseSepoliaErc20TransferVerifier` that its constructor checks.
pub record TransferVerifier : Type 0 where
  pub transaction_hash : String
  pub expected_token : String
  pub expected_sender : String
  pub expected_recipient : String
  pub expected_amount : ℕ

-- What `observe` has read from the receipt when it comes to the logs.
pub record Block : Type 0 where
  pub number : ℕ
  pub hash : String
  pub confirmations : ℕ

-- `topic0.lower()`: the capital letters whose small ones stand in the topic are A to F and X.
unfoldable pub small_x : String → String
small_x String.[] = ""
small_x (String.◌∷◌ c s) = String.◌∷◌ (if nat_eq (code c) b'X' then "x" else c) (small_x s)

-- `isinstance(topic0, str) and topic0.lower() == ERC20_TRANSFER_TOPIC`
abbrev pub is_transfer_topic : Field → Bool
is_transfer_topic other = false
is_transfer_topic (text s) =
    lower (small_x s) == "0xddf252ad1be2c89b69c2b068fc378daa952ba7f163c4a11628f55a4df523b3ef"

abbrev pub is_token : String → Field → Bool
is_token token other = false
is_token token (text s) = is_address s && lower s == token

-- `topics[1]` and `topics[2]` of a list of three
abbrev pub two_topics : List Field → Result (Field × Field)
two_topics (a ∷ b ∷ c ∷ []) = ok (b, c)
two_topics _ = fail_chain Code.invalid_transfer_topic_count

-- The `try` of `_parse_transfer_log`.
unfoldable pub read_transfer : TransferVerifier → Block → List Field → Log → Result ObservedTransfer
read_transfer v b topics l = do
  token ← chain_address l.address Code.invalid_log_token_address
  parties ← two_topics topics
  sender ← topic_address parties.0 Code.invalid_transfer_sender_topic
  recipient ← topic_address parties.1 Code.invalid_transfer_recipient_topic
  amount ← uint256_data l.data_field Code.invalid_transfer_amount_data
  log_index ← hex_quantity l.log_index Code.invalid_transfer_log_index
  number ← hex_quantity l.block_number Code.invalid_transfer_block_number
  hash ← chain_hash l.block_hash Code.invalid_transfer_block_hash
  transaction ← chain_hash l.transaction_hash Code.invalid_transfer_transaction_hash
  reject
      (not (nat_eq number b.number)
        || not (hash == b.hash)
        || not (transaction == v.transaction_hash))
      Code.transfer_receipt_binding_mismatch
  make_transfer (record {
    chain_id = 84532;
    token_address = token;
    sender = sender;
    recipient = recipient;
    amount_base_units = amount;
    transaction_hash = v.transaction_hash;
    block_hash = b.hash;
    log_index = log_index;
    confirmations = b.confirmations;
  })

-- `except BaseSepoliaVerificationError`: a defect in a log of another token is passed over.
abbrev pub skip_foreign : Bool → Result ObservedTransfer → Result (Option ObservedTransfer)
skip_foreign expected (ok t) = ok (some t)
skip_foreign expected (err e) = elim e.class [
  | ErrorClass.chain ↦ if expected then err e else ok none
  | _ ↦ err e
]

abbrev pub parse_topics :
    TransferVerifier → Block → List Field → Log → Result (Option ObservedTransfer)
parse_topics v b [] l = ok none
parse_topics v b (topic ∷ topics) l =
    if is_transfer_topic topic
    then skip_foreign (is_token v.expected_token l.address) (read_transfer v b (topic ∷ topics) l)
    else ok none

unfoldable pub parse_transfer_log :
    TransferVerifier → Block → Entry → Result (Option ObservedTransfer)
parse_transfer_log v b no_log = ok none
parse_transfer_log v b (log l) = elim l.topics [
  | none ↦ ok none
  | some topics ↦ parse_topics v b topics l
]

-- The loop over the logs; the transfers in the order of the logs.
unfoldable pub parse_logs : TransferVerifier → Block → List Entry → Result (List ObservedTransfer)
parse_logs v b [] = ok []
parse_logs v b (x ∷ xs) = do
  parsed ← parse_transfer_log v b x
  rest ← parse_logs v b xs
  ok (elim parsed [ none ↦ rest | some t ↦ t ∷ rest ])
