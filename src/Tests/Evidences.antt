-- ===== src/Tests/Evidences.antt =====
-- The chain verifier at concrete inputs.
use nexus_vector_keeperhub.Prelude.{ℕ, ◌≡◌, refl, true, none, some, List, [], ◌∷◌}
use nexus_vector_keeperhub.Errors.{ok}
use nexus_vector_keeperhub.Mission.Text.{is_hex_digit, match_address, is_address, lower_char, lower}
use nexus_vector_keeperhub.Evidence.{
  ObservationStatus, ObservedTransfer, Observation, match_hash, evidence_address, make_transfer,
  make_observation,
}
use nexus_vector_keeperhub.BaseSepolia.{
  Field, Log, Entry, Receipt, ReceiptReply, Rpc, TransferVerifier, Selected, chain_address,
  chain_hash, digit_value, hex_value, match_quantity, hex_quantity, topic_address, uint256_data,
  small_x, read_transfer, parse_transfer_log, parse_logs, filter_by, chain_match, select_transfer,
  check_receipt, judge_receipt, observe_receipt, observe,
}
use nexus_vector_keeperhub.BaseSepolia.Selection.{select_transfer-matching}
use nexus_vector_keeperhub.BaseSepolia.Evidenced.{IsEvidenced}
use nexus_vector_keeperhub.BaseSepolia.Sound.{observe-IsEvidenced}
use nexus_vector_keeperhub.Tests.Fixtures.{anna, token}

-- What a run of the verifier computes through.
unfoldable chain_runs : Unit {0}
unfolding is_hex_digit match_address is_address lower_char lower match_hash evidence_address
    make_transfer make_observation chain_address chain_hash digit_value hex_value match_quantity
    hex_quantity topic_address uint256_data small_x read_transfer parse_transfer_log parse_logs
    filter_by chain_match select_transfer check_receipt judge_receipt observe_receipt observe
chain_runs = tt

abbrev hash_a : Field
hash_a = Field.text "0xaaaaaaaaaaaaaaaaaaaaaaaaaaaaaaaaaaaaaaaaaaaaaaaaaaaaaaaaaaaaaaaa"

abbrev hash_b : Field
hash_b = Field.text "0xbbbbbbbbbbbbbbbbbbbbbbbbbbbbbbbbbbbbbbbbbbbbbbbbbbbbbbbbbbbbbbbb"

abbrev payer : Field
payer = Field.text "0x000000000000000000000000cccccccccccccccccccccccccccccccccccccccc"

abbrev transfer_log : Log
transfer_log = record {
  topics = some (
      Field.text "0xddf252ad1be2c89b69c2b068fc378daa952ba7f163c4a11628f55a4df523b3ef"
      ∷ payer
      ∷ Field.text "0x000000000000000000000000bbbbbbbbbbbbbbbbbbbbbbbbbbbbbbbbbbbbbbbb"
      ∷ []);
  address = Field.text token;
  data_field = Field.text "0x000000000000000000000000000000000000000000000000000000000000000C";
  log_index = Field.text "0x2";
  block_number = Field.text "0x10";
  block_hash = hash_b;
  transaction_hash = hash_a;
}

abbrev receipt_a : Receipt
receipt_a = record {
  transaction_hash = hash_a;
  status = Field.text "0x1";
  block_number = Field.text "0x10";
  block_hash = hash_b;
  logs = some (Entry.no_log ∷ Entry.log transfer_log ∷ []);
}

-- A transport that counts its calls.
abbrev rpc : Rpc ℕ
rpc = record {
  chain_id = λ n. (ok (Field.text "0x14a34"), nexus_vector_keeperhub.Prelude.suc n);
  transaction_receipt =
      λ hash n. (ok (ReceiptReply.receipt receipt_a), nexus_vector_keeperhub.Prelude.suc n);
  block_number = λ n. (ok (Field.text "0x12"), nexus_vector_keeperhub.Prelude.suc n);
}

abbrev verifier : TransferVerifier
verifier = record {
  transaction_hash = "0xaaaaaaaaaaaaaaaaaaaaaaaaaaaaaaaaaaaaaaaaaaaaaaaaaaaaaaaaaaaaaaaa";
  expected_token = token;
  expected_sender = "0xcccccccccccccccccccccccccccccccccccccccc";
  expected_recipient = anna;
  expected_amount = 12;
}

abbrev transfer_a : ObservedTransfer
transfer_a = record {
  chain_id = 84532;
  token_address = token;
  sender = "0xcccccccccccccccccccccccccccccccccccccccc";
  recipient = anna;
  amount_base_units = 12;
  transaction_hash = "0xaaaaaaaaaaaaaaaaaaaaaaaaaaaaaaaaaaaaaaaaaaaaaaaaaaaaaaaaaaaaaaaa";
  block_hash = "0xbbbbbbbbbbbbbbbbbbbbbbbbbbbbbbbbbbbbbbbbbbbbbbbbbbbbbbbbbbbbbbbb";
  log_index = 2;
  confirmations = 3;
}

abbrev observation_a : Observation
observation_a = record { status = ObservationStatus.verified_transfer; transfer = some transfer_a }

observes : (observe rpc verifier 0).0 ≡ ok observation_a
unfolding chain_runs
observes = refl

observe-IsEvidenced_example : IsEvidenced rpc verifier observation_a
observe-IsEvidenced_example = observe-IsEvidenced rpc verifier 0 observation_a observes refl

-- Two transfers of the token, one of which goes to the recipient.
abbrev other_transfer : ObservedTransfer
other_transfer = record transfer_a { amount_base_units = 7; log_index = 1 }

selects : select_transfer verifier (other_transfer ∷ transfer_a ∷ []) ≡ Selected.one transfer_a
unfolding chain_runs
selects = refl

matches : chain_match verifier transfer_a ≡ true
unfolding chain_runs
matches = refl

select_transfer-matching_example : transfer_a ≡ transfer_a
select_transfer-matching_example =
    select_transfer-matching verifier (other_transfer ∷ transfer_a ∷ []) transfer_a transfer_a 1
      selects refl matches
