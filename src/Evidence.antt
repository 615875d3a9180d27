-- ===== src/Evidence.antt =====
-- src/nexus_vector/domain/verification_evidence.py: independent evidence of one token transfer.
use Prim.Native.String.{◌++◌ as str_append}
use nexus_vector_keeperhub.Prelude.{
  ℕ, String, Bool, false, not, ◌&&◌, Option, none, some, List, ◌∷◌, ltb, nat_eq, length, all,
}
use nexus_vector_keeperhub.Prelude.Ids.{codes}
use nexus_vector_keeperhub.Errors.{ErrorClass, Code, Result, ok, fail, ◌>>=◌, ◌>>◌, reject_if}
use nexus_vector_keeperhub.Runtime.{Runtime, text, number, object, close, member}
use nexus_vector_keeperhub.Mission.Text.{is_hex_digit, is_address, lower}

pub data ObservationStatus : Type 0 where
  verified_transfer not_found ambiguous : ObservationStatus

pub record ObservedTransfer : Type 0 where
  pub chain_id : ℕ
  pub token_address : String
  pub sender : String
  pub recipient : String
  pub amount_base_units : ℕ
  pub transaction_hash : String
  pub block_hash : String
  pub log_index : ℕ
  pub confirmations : ℕ

pub record Observation : Type 0 where
  pub status : ObservationStatus
  pub transfer : Option ObservedTransfer

abbrev reject : Bool → Code → Result (Unit {0})
reject bad c = reject_if bad ErrorClass.evidence c

-- `_HASH_PATTERN`, matched in full
unfoldable pub match_hash : List ℕ → Bool
match_hash (a ∷ b ∷ digits) =
    nat_eq a b'0' && nat_eq b b'x' && nat_eq (length digits) 64 && all is_hex_digit digits
match_hash _ = false

unfoldable pub evidence_address : String → Code → Result String
evidence_address value c = do reject (not (is_address value)) c; ok (lower value)

unfoldable pub normalize_expected_sender : String → Result String
normalize_expected_sender value = evidence_address value Code.invalid_expected_sender

-- `ObservedTransfer(...)`: the checks of `__post_init__`
unfoldable pub make_transfer : ObservedTransfer → Result ObservedTransfer
unfolding evidence_address
make_transfer t = do
  reject (ltb t.chain_id 1) Code.invalid_chain_id
  token ← evidence_address t.token_address Code.invalid_token_address
  sender ← evidence_address t.sender Code.invalid_sender
  recipient ← evidence_address t.recipient Code.invalid_recipient
  reject (ltb t.amount_base_units 1) Code.invalid_amount_base_units
  reject (not (match_hash (codes t.transaction_hash))) Code.invalid_transaction_hash
  reject (not (match_hash (codes t.block_hash))) Code.invalid_block_hash
  ok (record t {
    token_address = token;
    sender = sender;
    recipient = recipient;
    transaction_hash = lower t.transaction_hash;
    block_hash = lower t.block_hash;
  })

-- `VerificationObservation(...)`: the checks of `__post_init__`
unfoldable pub make_observation : Observation → Result Observation
make_observation o = elim o.status [
  | ObservationStatus.verified_transfer ↦ elim o.transfer [
    | some t ↦ ok o
    | none ↦ fail ErrorClass.evidence Code.missing_verified_transfer
  ]
  | _ ↦ elim o.transfer [ some t ↦ fail ErrorClass.evidence Code.unexpected_transfer | none ↦ ok o ]
]

unfoldable pub derive_evidence_fingerprint : Runtime → ObservedTransfer → String
derive_evidence_fingerprint rt t = str_append "evf_" (
    rt.sha256 (
      str_append "nexus-vector:verified-transfer-evidence:v1\0" (
        rt.dumps (
          object (
            member "amount_base_units" (number t.amount_base_units) (
              member "block_hash" (text t.block_hash) (
                member "chain_id" (number t.chain_id) (
                  member "log_index" (number t.log_index) (
                    member "recipient" (text t.recipient) (
                      member "sender" (text t.sender) (
                        member "token_address" (text t.token_address)
                          (member "transaction_hash" (text t.transaction_hash) close))))))))))))
