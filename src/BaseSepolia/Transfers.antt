-- ===== src/BaseSepolia/Transfers.antt =====
-- What one log of a receipt says of a transfer that is read from it.
use nexus_vector_keeperhub.Prelude.{
  ℕ, ◌≡◌, sym, ap, ◌∙◌, String, List, [], ◌∷◌, arith, eq_iff, not, ◌||◌, ◌==◌, nat_eq,
}
use nexus_vector_keeperhub.Errors.{ErrorClass, Code, ok, bind-ok, guard-ok}
use nexus_vector_keeperhub.Evidence.{ObservedTransfer, make_transfer, evidence_address}
use nexus_vector_keeperhub.Mission.Text.{lower}
use nexus_vector_keeperhub.BaseSepolia.{
  Field, Log, TransferVerifier, Block, chain_address, chain_hash, hex_quantity, topic_address,
  uint256_data, read_transfer,
}
use nexus_vector_keeperhub.BaseSepolia.Logs.{two_topics}
use nexus_vector_keeperhub.BaseSepolia.Readers.{chain_address-lower, topic_address-lower}

-- The fields of the transfer are those of the log: the token is the contract that wrote it, the parties
-- are its second and third topic, the amount is its data; and the log is of this block and transaction.
pub record IsOfLog (v : TransferVerifier) (b : Block) (topics : List Field) (l : Log)
    (t : ObservedTransfer) : Type 0 where
  pub signature : Field
  pub from : Field
  pub to : Field
  pub three : topics ≡ signature ∷ from ∷ to ∷ []
  pub chain : t.chain_id ≡ 84532
  pub token : chain_address l.address Code.invalid_log_token_address ≡ ok t.token_address
  pub sender : topic_address from Code.invalid_transfer_sender_topic ≡ ok t.sender
  pub recipient : topic_address to Code.invalid_transfer_recipient_topic ≡ ok t.recipient
  pub amount : uint256_data l.data_field Code.invalid_transfer_amount_data ≡ ok t.amount_base_units
  pub log_index : hex_quantity l.log_index Code.invalid_transfer_log_index ≡ ok t.log_index
  pub same_number : hex_quantity l.block_number Code.invalid_transfer_block_number ≡ ok b.number
  pub same_block : chain_hash l.block_hash Code.invalid_transfer_block_hash ≡ ok b.hash
  pub same_transaction :
      chain_hash l.transaction_hash Code.invalid_transfer_transaction_hash ≡ ok v.transaction_hash
  pub transaction : t.transaction_hash ≡ lower v.transaction_hash
  pub block : t.block_hash ≡ lower b.hash
  pub confirmations : t.confirmations ≡ b.confirmations

-- `ObservedTransfer(...)` puts its addresses and hashes in lower case.
make_transfer-result :
    (t : ObservedTransfer) {u : ObservedTransfer}
    → make_transfer t ≡ ok u
    → u ≡ record t {
      token_address = lower t.token_address;
      sender = lower t.sender;
      recipient = lower t.recipient;
      transaction_hash = lower t.transaction_hash;
      block_hash = lower t.block_hash;
    }
unfolding make_transfer evidence_address
make_transfer-result t h = ground (arith, h)

two_topics-three :
    (topics : List Field) {x : Field × Field}
    → two_topics topics ≡ ok x
    → (signature : Field) × (topics ≡ signature ∷ x.0 ∷ x.1 ∷ [])
two_topics-three [] h = absurd (cc)
two_topics-three (a ∷ []) h = absurd (cc)
two_topics-three (a ∷ b ∷ []) h = absurd (cc)
two_topics-three (a ∷ b ∷ c ∷ []) h = (a, ground (arith, h))
two_topics-three (a ∷ b ∷ c ∷ d ∷ rest) h = absurd (cc)

module _ (v : TransferVerifier) (b : Block) (topics : List Field) (l : Log) where
  -- The reads of `_parse_transfer_log`, which all came back with a value, and its last check.
  record Reads (t : ObservedTransfer) : Type 0 where
    token : String
    sender : String
    recipient : String
    hash : String
    transaction : String
    parties : Field × Field
    amount : ℕ
    log_index : ℕ
    number : ℕ
    read_token : chain_address l.address Code.invalid_log_token_address ≡ ok token
    read_parties : two_topics topics ≡ ok parties
    read_sender : topic_address parties.0 Code.invalid_transfer_sender_topic ≡ ok sender
    read_recipient : topic_address parties.1 Code.invalid_transfer_recipient_topic ≡ ok recipient
    read_amount : uint256_data l.data_field Code.invalid_transfer_amount_data ≡ ok amount
    read_index : hex_quantity l.log_index Code.invalid_transfer_log_index ≡ ok log_index
    read_number : hex_quantity l.block_number Code.invalid_transfer_block_number ≡ ok number
    read_hash : chain_hash l.block_hash Code.invalid_transfer_block_hash ≡ ok hash
    read_transaction :
        chain_hash l.transaction_hash Code.invalid_transfer_transaction_hash ≡ ok transaction
    same : (number ≡ b.number) × (hash ≡ b.hash) × (transaction ≡ v.transaction_hash)
    made :
        make_transfer (record {
          chain_id = 84532;
          token_address = token;
          sender = sender;
          recipient = recipient;
          amount_base_units = amount;
          transaction_hash = v.transaction_hash;
          block_hash = b.hash;
          log_index = log_index;
          confirmations = b.confirmations;
        })
        ≡ ok t

  read_transfer-Reads : {t : ObservedTransfer} → read_transfer v b topics l ≡ ok t → Reads t
  unfolding read_transfer
  read_transfer-Reads {t} h = bind-ok _ _ h (λ token e1 h1. bind-ok _ _ h1 (λ parties e2 h2.
      bind-ok _ _ h2 (λ sender e3 h3. bind-ok _ _ h3 (λ recipient e4 h4.
        bind-ok _ _ h4 (λ amount e5 h5. bind-ok _ _ h5 (λ index e6 h6.
          bind-ok _ _ h6 (λ number e7 h7. bind-ok _ _ h7 (λ hash e8 h8.
            bind-ok _ _ h8 (λ transaction e9 h9.
              let (same, made) =
                guard-ok
                  (not (nat_eq number b.number)
                    || not (hash == b.hash)
                    || not (transaction == v.transaction_hash))
                  ErrorClass.chain Code.transfer_receipt_binding_mismatch _ h9 in
              record {
                token = token;
                sender = sender;
                recipient = recipient;
                hash = hash;
                transaction = transaction;
                parties = parties;
                amount = amount;
                log_index = index;
                number = number;
                read_token = e1;
                read_parties = e2;
                read_sender = e3;
                read_recipient = e4;
                read_amount = e5;
                read_index = e6;
                read_number = e7;
                read_hash = e8;
                read_transaction = e9;
                same =
                    ground (arith, same, eq_iff hash b.hash, eq_iff transaction v.transaction_hash);
                made = made;
              })))))))))

  pub read_transfer-IsOfLog :
      {t : ObservedTransfer} → read_transfer v b topics l ≡ ok t → IsOfLog v b topics l t
  read_transfer-IsOfLog {t} h =
      let r = read_transfer-Reads h in
      let (signature, three) = two_topics-three topics r.read_parties in
      let shape = make_transfer-result _ r.made in
      record {
        signature = signature;
        from = r.parties.0;
        to = r.parties.1;
        three = three;
        chain = ap (λ (x : ObservedTransfer). x.chain_id) shape;
        token =
            r.read_token
            ∙ ap ok (
                sym (chain_address-lower l.address Code.invalid_log_token_address r.read_token)
                ∙ sym (ap (λ (x : ObservedTransfer). x.token_address) shape));
        sender =
            r.read_sender
            ∙ ap ok (
                sym
                  (topic_address-lower r.parties.0 Code.invalid_transfer_sender_topic r.read_sender)
                ∙ sym (ap (λ (x : ObservedTransfer). x.sender) shape));
        recipient =
            r.read_recipient
            ∙ ap ok (
                sym (
                  topic_address-lower r.parties.1 Code.invalid_transfer_recipient_topic
                    r.read_recipient)
                ∙ sym (ap (λ (x : ObservedTransfer). x.recipient) shape));
        amount =
            r.read_amount ∙ ap ok (sym (ap (λ (x : ObservedTransfer). x.amount_base_units) shape));
        log_index = r.read_index ∙ ap ok (sym (ap (λ (x : ObservedTransfer). x.log_index) shape));
        same_number = r.read_number ∙ ap ok r.same.0;
        same_block = r.read_hash ∙ ap ok r.same.1;
        same_transaction = r.read_transaction ∙ ap ok r.same.2;
        transaction = ap (λ (x : ObservedTransfer). x.transaction_hash) shape;
        block = ap (λ (x : ObservedTransfer). x.block_hash) shape;
        confirmations = ap (λ (x : ObservedTransfer). x.confirmations) shape;
      }
