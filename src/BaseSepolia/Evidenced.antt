-- ===== src/BaseSepolia/Evidenced.antt =====
-- What an observation of the verifier rests on.
use nexus_vector_keeperhub.Prelude.{
  ℕ, zero, suc, ◌+◌, ◌-◌, ◌≤◌, String, ◌≡◌, refl, sym, ap, ◌∙◌, inl, inr, Option, none, some, List,
  [], ◌∷◌, ltb, true, arith, Bool-cases, Option-cases, some_injective,
}
use nexus_vector_keeperhub.Prelude.Positions.{get_elem?}
use nexus_vector_keeperhub.Errors.{Code, ok, Result-cases}
use nexus_vector_keeperhub.Evidence.{
  ObservationStatus, ObservedTransfer, Observation, make_observation,
}
use nexus_vector_keeperhub.BaseSepolia.{
  Field, Log, Entry, log, no_log, Receipt, receipt, Rpc, TransferVerifier, Block, Selected, one,
  nothing, several, hex_quantity, is_transfer_topic, read_transfer, parse_topics,
  parse_transfer_log, parse_logs, select_transfer, observation_of, require_logs, check_receipt,
  judge_receipt,
}
use nexus_vector_keeperhub.BaseSepolia.Transfers.{IsOfLog, read_transfer-IsOfLog}
use nexus_vector_keeperhub.BaseSepolia.Mined.{IsMined, check_receipt-IsMined}
use nexus_vector_keeperhub.BaseSepolia.Selection.{IsIn, first_or_later, select_transfer-IsIn}

-- The transfer is that of a log of the list, whose first topic names the event `Transfer`.
pub record IsRead (v : TransferVerifier) (b : Block) (xs : List Entry) (t : ObservedTransfer)
    : Type 0 where
  pub entry : Log
  pub logged : IsIn (log entry) xs
  pub topics : List Field
  pub has_topics : entry.topics ≡ some topics
  pub fields : IsOfLog v b topics entry t
  pub is_transfer : is_transfer_topic fields.signature ≡ true

module _ (v : TransferVerifier) (b : Block) where
  parse_topics-read :
      (topics : List Field) (l : Log) {t : ObservedTransfer}
      → parse_topics v b topics l ≡ ok (some t)
      → (r : IsOfLog v b topics l t) × (is_transfer_topic r.signature ≡ true)
  parse_topics-read [] l h = absurd (ground (arith, h))
  parse_topics-read (x ∷ xs) l {t} h = elim (Bool-cases (is_transfer_topic x)) [
    | inr other ↦ absurd (ground (arith, h, other))
    | inl transfers ↦ elim (Result-cases (read_transfer v b (x ∷ xs) l)) [
      | inl (e, bad) ↦ absurd (ground (arith, h, transfers, bad))
      | inr (u, done) ↦
          let r =
            read_transfer-IsOfLog v b (x ∷ xs) l (done ∙ ground (arith, h, transfers, done)) in
          let first : x ≡ r.signature = ground (arith, r.three) in
          (r, ap is_transfer_topic (sym first) ∙ transfers)
    ]
  ]

  parse_transfer_log-IsRead :
      (x : Entry) (xs : List Entry) {t : ObservedTransfer}
      → parse_transfer_log v b x ≡ ok (some t)
      → IsRead v b (x ∷ xs) t
  unfolding parse_transfer_log
  parse_transfer_log-IsRead no_log xs h = absurd (ground (arith, h))
  parse_transfer_log-IsRead (log l) xs {t} h = elim (Option-cases l.topics) [
    | inl no_topics ↦ absurd (ground (arith, h, no_topics))
    | inr (topics, there) ↦
        let (fields, named) = parse_topics-read topics l (rw there at h) in
        record {
          entry = l;
          logged = (zero, refl);
          topics = topics;
          has_topics = there;
          fields = fields;
          is_transfer = named;
        }
  ]

  IsRead-later :
      (x : Entry) (xs : List Entry) (t : ObservedTransfer) → IsRead v b xs t → IsRead v b (x ∷ xs) t
  IsRead-later x xs t r = record {
    entry = r.entry;
    logged = (suc r.logged.0, r.logged.1);
    topics = r.topics;
    has_topics = r.has_topics;
    fields = r.fields;
    is_transfer = r.is_transfer;
  }

  parse_logs-IsRead :
      (xs : List Entry) {ts : List ObservedTransfer} (i : ℕ) (t : ObservedTransfer)
      → parse_logs v b xs ≡ ok ts
      → get_elem? ts i ≡ some t
      → IsRead v b xs t
  unfolding parse_logs
  parse_logs-IsRead [] {ts} i t h there = absurd (ground (arith, h, there))
  parse_logs-IsRead (x ∷ xs) {ts} i t h there = elim (Result-cases (parse_transfer_log v b x)) [
    | inl (e, bad) ↦ absurd (ground (arith, h, bad))
    | inr (parsed, good) ↦ elim (Result-cases (parse_logs v b xs)) [
      | inl (e, bad) ↦ absurd (ground (arith, h, good, bad))
      | inr (rest, done) ↦ elim (Option-cases parsed) [
        | inl skipped ↦ IsRead-later x xs t (
            parse_logs-IsRead xs {ts = rest} i t done
              (ap (λ l. get_elem? l i) (ground (arith, h, good, done, skipped)) ∙ there))
        | inr (u, kept) ↦
            let table : u ∷ rest ≡ ts = ground (arith, h, good, done, kept) in
            elim (first_or_later i) [
              | inl first ↦
                  let same : u ≡ t =
                    some_injective
                      (ap (λ l. get_elem? l zero) table ∙ ap (get_elem? ts) (sym first) ∙ there) in
                  parse_transfer_log-IsRead x xs (good ∙ ap ok kept ∙ ap (λ y. ok (some y)) same)
              | inr (j, later) ↦ IsRead-later x xs t (
                  parse_logs-IsRead xs {ts = rest} j t done
                    (ap (λ l. get_elem? l (suc j)) table ∙ ap (get_elem? ts) (sym later) ∙ there))
            ]
      ]
    ]
  ]

observation_of-transfer :
    (x : Selected) {o : Observation}
    → observation_of x ≡ ok o
    → o.status ≡ ObservationStatus.verified_transfer
    → (t : ObservedTransfer) × (x ≡ one t) × (o.transfer ≡ some t)
unfolding make_observation
observation_of-transfer nothing h s = absurd (ground (arith, h, s))
observation_of-transfer several h s = absurd (ground (arith, h, s))
observation_of-transfer (one t) h s = (t, refl, ground (arith, h))

-- What the verifier has read when it reports a transfer.
pub record IsEvidenced {Q : Type 0} (rpc : Rpc Q) (v : TransferVerifier) (o : Observation)
    : Type 0 where
  pub transfer : ObservedTransfer
  pub reported : o.transfer ≡ some transfer
  pub read_receipt : Receipt
  pub asked :
      (q : Q) × ((rpc.transaction_receipt v.transaction_hash q).0 ≡ ok (receipt read_receipt))
  pub place : ℕ × String
  pub right_chain :
      (q : Q) × (f : Field) × ((rpc.chain_id q).0 ≡ ok f)
      × (hex_quantity f Code.invalid_rpc_chain_id ≡ ok 84532)
  pub mined : IsMined v read_receipt place
  pub latest : ℕ
  pub asked_latest :
      (q : Q) × (f : Field) × ((rpc.block_number q).0 ≡ ok f)
      × (hex_quantity f Code.invalid_latest_block_number ≡ ok latest)
  pub counted : place.0 ≤ latest
  pub logs : List Entry
  pub has_logs : read_receipt.logs ≡ some logs
  pub from_log :
      IsRead v
        (record { number = place.0; hash = place.1; confirmations = latest - place.0 + 1 })
        logs
        transfer

require_logs-some :
    (x : Option (List Entry)) {xs : List Entry} → require_logs x ≡ ok xs → x ≡ some xs
require_logs-some none h = absurd (ground (arith, h))
require_logs-some (some ys) h = ground (arith, h)

module _ {Q : Type 0} (rpc : Rpc Q) (v : TransferVerifier) where
  pub judge_receipt-IsEvidenced :
      (r : Receipt) (place : ℕ × String) (f : Field) (q q' : Q) {o : Observation}
      → (rpc.transaction_receipt v.transaction_hash q).0 ≡ ok (receipt r)
      → check_receipt v r ≡ ok place
      → (rpc.block_number q').0 ≡ ok f
      → judge_receipt v r place f ≡ ok o
      → o.status ≡ ObservationStatus.verified_transfer
      → ((q0 : Q) × (g : Field) × ((rpc.chain_id q0).0 ≡ ok g)
          × (hex_quantity g Code.invalid_rpc_chain_id ≡ ok 84532))
      → IsEvidenced rpc v o
  unfolding judge_receipt
  judge_receipt-IsEvidenced r place f q q' {o} asked checked counted h s right_chain =
      elim (Result-cases (hex_quantity f Code.invalid_latest_block_number)) [
        | inl (e, bad) ↦ absurd (ground (arith, h, bad))
        | inr (n, number) ↦ elim (Bool-cases (ltb n place.0)) [
          | inl behind ↦ absurd (ground (arith, h, number, behind))
          | inr mined ↦ elim (Result-cases (require_logs r.logs)) [
            | inl (e, bad) ↦ absurd (ground (arith, h, number, mined, bad))
            | inr (xs, has) ↦
                let b : Block = record {
                  number = place.0;
                  hash = place.1;
                  confirmations = n - place.0 + 1;
                } in
                elim (Result-cases (parse_logs v b xs)) [
                  | inl (e, bad) ↦ absurd (ground (arith, h, number, mined, has, bad))
                  | inr (ts, parsed) ↦
                      let made : observation_of (select_transfer v ts) ≡ ok o =
                        rw (number, mined, has, parsed) at h in
                      let (t, selected, shown) =
                        observation_of-transfer (select_transfer v ts) made s in
                      let (i, there) = select_transfer-IsIn v ts t selected in
                      record {
                        transfer = t;
                        reported = shown;
                        read_receipt = r;
                        asked = (q, asked);
                        place = place;
                        right_chain = right_chain;
                        mined = check_receipt-IsMined v r checked;
                        latest = n;
                        asked_latest = (q', f, counted, number);
                        counted = ground (arith, mined);
                        logs = xs;
                        has_logs = require_logs-some r.logs has;
                        from_log = parse_logs-IsRead v b xs i t parsed there;
                      }
                ]
          ]
        ]
      ]
