-- ===== src/BaseSepolia/Mined.antt =====
-- What the checks of the chain and of the receipt have found where they pass.
use nexus_vector_keeperhub.Prelude.{ℕ, String, ◌≡◌, ap, ◌∙◌, not, ◌==◌, nat_eq, arith, eq_iff}
use nexus_vector_keeperhub.Errors.{ErrorClass, Code, ok, bind-ok, guard-ok}
use nexus_vector_keeperhub.BaseSepolia.{
  Field, Receipt, TransferVerifier, chain_hash, hex_quantity, check_receipt, check_chain,
}

-- The receipt is that of the transaction, which succeeded, and names its block by number and hash.
pub record IsMined (v : TransferVerifier) (r : Receipt) (place : ℕ × String) : Type 0 where
  pub same_transaction :
      chain_hash r.transaction_hash Code.invalid_receipt_transaction_hash ≡ ok v.transaction_hash
  pub succeeded : hex_quantity r.status Code.invalid_receipt_status ≡ ok 1
  pub number : hex_quantity r.block_number Code.invalid_receipt_block_number ≡ ok place.0
  pub hash : chain_hash r.block_hash Code.invalid_receipt_block_hash ≡ ok place.1

pub check_receipt-IsMined :
    (v : TransferVerifier) (r : Receipt) {place : ℕ × String}
    → check_receipt v r ≡ ok place
    → IsMined v r place
unfolding check_receipt
check_receipt-IsMined v r {place} h = bind-ok _ _ h (λ hash e1 h1.
    let (same, h2) =
      guard-ok (not (hash == v.transaction_hash)) ErrorClass.chain
        Code.receipt_transaction_hash_mismatch _ h1 in
    bind-ok _ _ h2 (λ status e3 h3.
      let (success, h4) =
        guard-ok (not (nat_eq status 1)) ErrorClass.chain Code.transaction_reverted _ h3 in
      bind-ok _ _ h4 (λ number e5 h5. bind-ok _ _ h5 (λ block e6 h6. record {
        same_transaction = e1 ∙ ap ok (ground (arith, same, eq_iff hash v.transaction_hash));
        succeeded = e3 ∙ ap ok (ground (arith, success));
        number = e5 ∙ ap ok (ground (arith, h6));
        hash = e6 ∙ ap ok (ground (arith, h6));
      }))))

pub check_chain-ok :
    (f : Field) → check_chain f ≡ ok tt → hex_quantity f Code.invalid_rpc_chain_id ≡ ok 84532
check_chain-ok f h = bind-ok _ _ h (λ id e h1. e ∙ ap ok (ground (arith, h1)))
