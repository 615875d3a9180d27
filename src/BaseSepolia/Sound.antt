-- ===== src/BaseSepolia/Sound.antt =====
-- A transfer that the verifier reports was read from the chain.
use nexus_vector_keeperhub.Prelude.{◌≡◌, inl, inr, arith}
use nexus_vector_keeperhub.Errors.{Code, ok, Result-cases}
use nexus_vector_keeperhub.Evidence.{ObservationStatus, Observation, make_observation}
use nexus_vector_keeperhub.BaseSepolia.{
  Field, ReceiptReply, receipt, missing, no_mapping, Rpc, TransferVerifier, hex_quantity,
  check_receipt, check_chain, observe_receipt, observe,
}
use nexus_vector_keeperhub.BaseSepolia.Mined.{check_chain-ok}
use nexus_vector_keeperhub.BaseSepolia.Evidenced.{IsEvidenced, judge_receipt-IsEvidenced}

module _ {Q : Type 0} (rpc : Rpc Q) (v : TransferVerifier) where
  observe_receipt-IsEvidenced :
      (reply : ReceiptReply) (q q' : Q) {o : Observation}
      → (rpc.transaction_receipt v.transaction_hash q).0 ≡ ok reply
      → (observe_receipt rpc v reply q').0 ≡ ok o
      → o.status ≡ ObservationStatus.verified_transfer
      → ((q0 : Q) × (g : Field) × ((rpc.chain_id q0).0 ≡ ok g)
          × (hex_quantity g Code.invalid_rpc_chain_id ≡ ok 84532))
      → IsEvidenced rpc v o
  unfolding observe_receipt make_observation
  observe_receipt-IsEvidenced missing q q' asked h s right_chain = absurd (ground (arith, h, s))
  observe_receipt-IsEvidenced no_mapping q q' asked h s right_chain = absurd (ground (arith, h))
  observe_receipt-IsEvidenced (receipt r) q q' {o} asked h s right_chain =
      elim (Result-cases (check_receipt v r)) [
        | inl (e, bad) ↦ absurd (ground (arith, h, bad))
        | inr (place, checked) ↦ elim (Result-cases (rpc.block_number q').0) [
          | inl (e, bad) ↦ absurd (ground (arith, h, checked, bad))
          | inr (f, counted) ↦
              judge_receipt-IsEvidenced rpc v r place f q q' asked checked counted
                (rw (checked, counted) at h) s right_chain
        ]
      ]

  -- Where the verifier reports a VERIFIED_TRANSFER: the transport named chain 84532 and returned a receipt
  -- of the transaction with status 1; the latest block is not before that of the receipt; and a log of the
  -- receipt with the topic of the event Transfer, of the same transaction and block, has the token, the
  -- sender, the recipient, the amount and the index that are reported, with as many confirmations as there
  -- are blocks from its own to the latest, both counted.
  pub observe-IsEvidenced :
      (q : Q) (o : Observation)
      → (observe rpc v q).0 ≡ ok o
      → o.status ≡ ObservationStatus.verified_transfer
      → IsEvidenced rpc v o
  unfolding observe
  observe-IsEvidenced q o h s = elim (Result-cases (rpc.chain_id q).0) [
    | inl (e, bad) ↦ absurd (ground (arith, h, bad))
    | inr (f, named) ↦ elim (Result-cases (check_chain f)) [
      | inl (e, bad) ↦ absurd (ground (arith, h, named, bad))
      | inr (x, right) ↦
          let q1 = (rpc.chain_id q).1 in
          let q2 = (rpc.transaction_receipt v.transaction_hash q1).1 in
          elim (Result-cases (rpc.transaction_receipt v.transaction_hash q1).0) [
            | inl (e, bad) ↦ absurd (ground (arith, h, named, right, bad))
            | inr (reply, asked) ↦
                observe_receipt-IsEvidenced reply q1 q2 asked (rw (named, right, asked) at h) s
                  (q, f, named, check_chain-ok f right)
          ]
    ]
  ]
