-- ===== src/ReferencePort/Journaled.antt =====
-- What a call of the port does on every branch: nothing is accepted before its reference is durable.
use mathlib.Core.Path.{subst}
use nexus_vector_keeperhub.Prelude.{
  String, ◌≡◌, refl, sym, ap, ◌∙◌, ◌⊎◌, inl, inr, true, Option, none, some, List, ◌==◌, arith,
  eq_iff, Bool-cases,
}
use nexus_vector_keeperhub.Errors.{Error, Result, ok, err, Result-cases}
use nexus_vector_keeperhub.Runtime.{Runtime, NfcIsIdempotent}
use nexus_vector_keeperhub.Reference.{ProviderReference, make_reference, validate_attempt_id}
use nexus_vector_keeperhub.Attempt.{AttemptRecord}
use nexus_vector_keeperhub.Persistence.Database.{read, write}
use nexus_vector_keeperhub.Persistence.ReferenceStore.{
  ReferenceRow, ReferenceDb, initialize, get, create, load, same_reference,
}
use nexus_vector_keeperhub.Persistence.ReferenceStore.Appended.{
  IsMadeFrom, make_reference-IsMadeFrom, create-Appended,
}
use nexus_vector_keeperhub.Dispatch.{PortOutcome}
use nexus_vector_keeperhub.ReferencePort.{
  ProviderResult, ProviderReply, ProviderPort, Journal, reference_of, look_up, settle_reply,
  execute,
}

-- The journal holds the reference of the provider for the attempt.
abbrev pub IsJournaled : Runtime → AttemptRecord → String → List ReferenceRow → Type 0
IsJournaled rt attempt reference t =
    (stored : ProviderReference) × (load rt attempt.attempt_id t ≡ ok (some stored))
    × (stored.attempt_id ≡ attempt.attempt_id)
    × (stored.request_fingerprint ≡ attempt.plan.request_fingerprint)
    × (stored.provider_reference ≡ rt.nfc reference)

-- What the port makes of what the provider came back with.
abbrev pub Answers :
    Runtime → AttemptRecord → Result ProviderReply → Result PortOutcome → List ReferenceRow → Type 0
Answers rt attempt reply r t =
    ((reference : String) × (reply
        ≡ ok (ProviderReply.result (ProviderResult.accepted_as reference)))
      × (r ≡ ok PortOutcome.accepted)
      × IsJournaled rt attempt reference t)
    ⊎ (((reply ≡ ok (ProviderReply.result ProviderResult.rejected))
          × (r ≡ ok PortOutcome.rejected_final))
        ⊎ ((e : Error) × (r ≡ err e)))

-- What a call of the port did when the provider was called.
pub record Asked {Q : Type 0} (rt : Runtime) (namespace : String) (port : ProviderPort Q)
    (attempt : AttemptRecord) (s : Journal Q) (r : Result PortOutcome) (s' : Journal Q)
    : Type 0 where
  pub owned : attempt.plan.provider_namespace ≡ namespace
  pub new : load rt attempt.attempt_id s.references.tables ≡ ok none
  pub provider : s'.provider ≡ (port attempt s.provider).1
  pub answers : Answers rt attempt (port attempt s.provider).0 r s'.references.tables

same_reference-fields :
    (a b : ProviderReference)
    → same_reference a b ≡ true
    → (a.attempt_id ≡ b.attempt_id)
      × (a.request_fingerprint ≡ b.request_fingerprint)
      × (a.provider_reference ≡ b.provider_reference)
unfolding same_reference
same_reference-fields a b h = (
  ground (arith, h, eq_iff a.attempt_id b.attempt_id),
  ground (arith, h, eq_iff a.request_fingerprint b.request_fingerprint),
  ground (arith, h, eq_iff a.provider_reference b.provider_reference),
)

module _ (rt : Runtime) where
  initialize-tables : (db : ReferenceDb) → (initialize db).1.tables ≡ db.tables
  unfolding initialize write
  initialize-tables db = ground arith

  get-load :
      (id : String) (db : ReferenceDb) {o : Option ProviderReference}
      → (get rt id db).0 ≡ ok o
      → (load rt id db.tables ≡ ok o) × ((get rt id db).1.tables ≡ db.tables)
  unfolding get validate_attempt_id read
  get-load id db h = ground arith

  -- A reference that was made from the reply, and stored, is the one of the reply.
  stored-IsJournaled :
      (nfc : NfcIsIdempotent rt) (attempt : AttemptRecord) (reference : String)
      {r stored : ProviderReference} (t : List ReferenceRow)
      → make_reference rt (reference_of attempt reference) ≡ ok r
      → (same_reference stored r ≡ true) ⊎ IsMadeFrom rt r stored
      → load rt r.attempt_id t ≡ ok (some stored)
      → IsJournaled rt attempt reference t
  stored-IsJournaled nfc attempt reference {r} {stored} t made kept shown =
      let m = make_reference-IsMadeFrom rt (reference_of attempt reference) made in
      let there = subst (λ id. load rt id t ≡ ok (some stored)) m.attempt_id shown in
      elim kept [
        | inl agrees ↦
            let f = same_reference-fields stored r agrees in
            (
              stored,
              there,
              f.0 ∙ m.attempt_id,
              f.1 ∙ m.request_fingerprint,
              f.2 ∙ m.provider_reference,
            )
        | inr again ↦ (
          stored,
          there,
          again.attempt_id ∙ m.attempt_id,
          again.request_fingerprint ∙ m.request_fingerprint,
          again.provider_reference ∙ ap rt.nfc m.provider_reference ∙ nfc reference,
        )
      ]

  module _ {Q : Type 0} where
    look_up-provider :
        (attempt : AttemptRecord) (s : Journal Q) → (look_up rt attempt s).1.provider ≡ s.provider
    unfolding look_up
    look_up-provider attempt s = elim (Result-cases (initialize s.references).0) [
      | inl (e, bad) ↦ rw bad refl
      | inr (x, started) ↦ rw started refl
    ]

    look_up-load :
        (attempt : AttemptRecord) (s : Journal Q) {o : Option ProviderReference}
        → (look_up rt attempt s).0 ≡ ok o
        → load rt attempt.attempt_id s.references.tables ≡ ok o
    unfolding look_up
    look_up-load attempt s {o} h = elim (Result-cases (initialize s.references).0) [
      | inl (e, bad) ↦ absurd (ground (arith, h, bad))
      | inr (x, started) ↦
          let db = (initialize s.references).1 in
          elim (Result-cases (get rt attempt.attempt_id db).0) [
            | inl (e, bad) ↦ absurd (ground (arith, h, started, bad))
            | inr (y, got) ↦
                let same : y ≡ o = ground (arith, h, started, got) in
                subst (λ t. load rt attempt.attempt_id t ≡ ok o) (initialize-tables s.references)
                  ((get-load attempt.attempt_id db got).0 ∙ ap ok same)
          ]
    ]

    settle_reply-provider :
        (attempt : AttemptRecord) (reply : ProviderReply) (s : Journal Q)
        → (settle_reply rt attempt reply s).1.provider ≡ s.provider
    unfolding settle_reply
    settle_reply-provider attempt ProviderReply.not_a_result s = refl
    settle_reply-provider attempt (ProviderReply.result ProviderResult.rejected) s = refl
    settle_reply-provider attempt (ProviderReply.result (ProviderResult.accepted_as reference)) s =
        elim (Result-cases (make_reference rt (reference_of attempt reference))) [
          | inl (e, bad) ↦ rw bad refl
          | inr (r, made) ↦ elim (Result-cases (create rt r s.references).0) [
            | inl (e, bad) ↦ rw (made, bad) refl
            | inr (x, stored) ↦ rw (made, stored) refl
          ]
        ]

    settle_reply-Answers :
        (nfc : NfcIsIdempotent rt) (attempt : AttemptRecord) (reply : ProviderReply) (s : Journal Q)
        → Answers rt attempt
            (ok reply)
            (settle_reply rt attempt reply s).0
            (settle_reply rt attempt reply s).1.references.tables
    unfolding settle_reply
    settle_reply-Answers nfc attempt ProviderReply.not_a_result s = inr (inr (_, refl))
    settle_reply-Answers nfc attempt (ProviderReply.result ProviderResult.rejected) s =
        inr (inl (refl, refl))
    settle_reply-Answers nfc attempt (ProviderReply.result (ProviderResult.accepted_as reference))
          s =
        elim (Result-cases (make_reference rt (reference_of attempt reference))) [
          | inl (e, bad) ↦ rw bad (inr (inr (_, refl)))
          | inr (r, made) ↦ elim (Result-cases (create rt r s.references).0) [
            | inl (e, bad) ↦ rw (made, bad) (inr (inr (e, refl)))
            | inr (x, created) ↦
                let a = create-Appended rt r s.references created in
                rw (made, created)
                  (inl (
                    reference,
                    refl,
                    refl,
                    stored-IsJournaled nfc attempt reference (create rt r s.references).1.tables
                        made a.stored a.shown,
                  ))
          ]
        ]

-- A call of the port either raises and has not called the provider; or it calls the provider once,
-- for an attempt in its own namespace that had no reference: then it says ACCEPTED only where the
-- provider accepted and the journal now holds the provider's reference for the attempt, it says
-- REJECTED_FINAL only where the provider did, and else it raises.
pub execute_journals :
    {Q : Type 0} (rt : Runtime) (nfc : NfcIsIdempotent rt) (namespace : String)
    (port : ProviderPort Q) (attempt : AttemptRecord) (s : Journal Q)
    → let (r, s') = execute rt namespace port attempt s in
      ((e : Error) × (r ≡ err e) × (s'.provider ≡ s.provider))
      ⊎ Asked rt namespace port attempt s r s'
unfolding execute
execute_journals {Q} rt nfc namespace port attempt s =
    elim (Bool-cases (attempt.plan.provider_namespace == namespace)) [
      | inr foreign ↦ rw foreign (inl (_, refl, refl))
      | inl own ↦
          let s1 = (look_up rt attempt s).1 in
          let kept = look_up-provider rt attempt s in
          elim (Result-cases (look_up rt attempt s).0) [
            | inl (e, bad) ↦ rw (own, bad) (inl (e, refl, kept))
            | inr (some x, there) ↦ rw (own, there) (inl (_, refl, kept))
            | inr (none, new) ↦ elim (Result-cases (port attempt s1.provider).0) [
              | inl (e, bad) ↦
                  rw (own, new, bad)
                    (inr (record {
                      owned = ground (arith, own, eq_iff attempt.plan.provider_namespace namespace);
                      new = look_up-load rt attempt s new;
                      provider = ap (λ q. (port attempt q).1) kept;
                      answers = inr (inr (e, refl));
                    }))
              | inr (reply, replied) ↦
                  let s2 : Journal Q = record s1 { provider = (port attempt s1.provider).1 } in
                  rw (own, new, replied)
                    (inr (record {
                      owned = ground (arith, own, eq_iff attempt.plan.provider_namespace namespace);
                      new = look_up-load rt attempt s new;
                      provider =
                          settle_reply-provider rt attempt reply s2
                          ∙ ap (λ q. (port attempt q).1) kept;
                      answers =
                          subst
                            (λ o.
                              Answers rt attempt o (settle_reply rt attempt reply s2).0
                                (settle_reply rt attempt reply s2).1.references.tables)
                            (sym replied ∙ ap (λ q. (port attempt q).0) kept)
                            (settle_reply-Answers rt nfc attempt reply s2);
                    }))
            ]
          ]
    ]
