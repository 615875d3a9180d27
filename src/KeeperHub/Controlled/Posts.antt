-- ===== src/KeeperHub/Controlled/Posts.antt =====
-- A simulation, and a broadcast, calls the transport at most once, and never without a claim of its own.
use nexus_vector_keeperhub.Prelude.{
  String, ◌≡◌, refl, ap, ◌∙◌, ◌⊎◌, inl, inr, true, false, none, some, ◌∷◌, arith, Bool-cases,
}
use nexus_vector_keeperhub.Errors.{Error, Code, Result, ok, err, Result-cases}
use nexus_vector_keeperhub.Clock.{Datetime}
use nexus_vector_keeperhub.Runtime.{Runtime, Json}
use nexus_vector_keeperhub.Attempt.{AttemptPlan, AttemptRecord}
use nexus_vector_keeperhub.Persistence.AuthorizationLedger.{Phase, AuthorizationRecord, initialize}
use nexus_vector_keeperhub.Persistence.AuthorizationLedger.Rows.{taken}
use nexus_vector_keeperhub.ReferencePort.{ProviderResult}
use nexus_vector_keeperhub.KeeperHub.Intent.{TransferIntent, simulation_body, broadcast_body}
use nexus_vector_keeperhub.KeeperHub.Replies.{Simulated, classify_simulation, classify_broadcast}
use nexus_vector_keeperhub.KeeperHub.Approvals.{SimulationAuthorization, fingerprint_of}
use nexus_vector_keeperhub.KeeperHub.Controlled.{
  Post, Transport, Posted, Controls, claim_of, on_ledger, post_transfer, finalize_best_effort,
  claim_approval, load_receipt, prepare_attempt, check_simulation, target_of_simulation,
  settle_simulation, claim_simulation, simulate,
}
use nexus_vector_keeperhub.KeeperHub.Controlled.Claims.{
  Grows, Grows-refl, Grows-then, on_ledger-Grows, initialize-claims, finalize-Grows, give_up-Grows,
  load_receipt-Grows, prepare_attempt-Grows, claim_approval-Grows, claim_approval-taken,
}
use nexus_vector_keeperhub.KeeperHub.Broadcast.{
  BroadcastPort, check_attempt, target_of_broadcast, claim_broadcast, settle_broadcast, execute,
}

-- The phase of the attempt was free before, and is taken after.
pub record Takes {Q : Type 0} (r : AuthorizationRecord) (s t : Controls Q) : Type 0 where
  pub free : taken r.phase r.attempt_id s.ledger.tables ≡ false
  pub taken_after : taken r.phase r.attempt_id t.ledger.tables ≡ true

-- One call of the transport, after a claim of its phase and attempt.
pub record PostedOnce {Q : Type 0} (s t : Controls Q) : Type 0 where
  pub posted : Posted
  pub posts : t.posts ≡ posted ∷ s.posts
  pub free : taken posted.phase posted.attempt_id s.ledger.tables ≡ false
  pub claimed : taken posted.phase posted.attempt_id t.ledger.tables ≡ true
  pub claims :
      (phase : Phase) (id : String)
      → taken phase id s.ledger.tables ≡ true
      → taken phase id t.ledger.tables ≡ true

-- What is free after steps that take no claim back was free before them.
free_before :
    {Q : Type 0} (s t : Controls Q) (phase : Phase) (id : String)
    → Grows s t
    → taken phase id t.ledger.tables ≡ false
    → taken phase id s.ledger.tables ≡ false
free_before s t phase id g h = elim (Bool-cases (taken phase id s.ledger.tables)) [
  | inr free ↦ free
  | inl there ↦ absurd (ground (arith, h, g.claims phase id there))
]

-- A claim, a call of the transport, and what settles it.
post-PostedOnce :
    {Q : Type 0} (transport : Transport Q) (r : AuthorizationRecord) (post : Post)
    (s t u : Controls Q)
    → Grows s t
    → Takes r s t
    → Grows (post_transfer transport r post t).1 u
    → PostedOnce s u
unfolding post_transfer
post-PostedOnce transport r post s t u before claim after = record {
  posted = record {
    approval_reference = r.approval_reference;
    phase = r.phase;
    attempt_id = r.attempt_id;
    post = post;
  };
  posts =
      after.posts
      ∙ ap
          (λ ps.
            record {
              approval_reference = r.approval_reference;
              phase = r.phase;
              attempt_id = r.attempt_id;
              post = post;
            }
            ∷ ps)
          before.posts;
  free = claim.free;
  claimed = after.claims r.phase r.attempt_id claim.taken_after;
  claims = λ phase id h. after.claims phase id (before.claims phase id h);
}

module _ {Q : Type 0} (rt : Runtime) where
  -- A claim after steps that take no claim back.
  claim-Takes :
      (r : AuthorizationRecord) (s t : Controls Q) {x : AuthorizationRecord}
      → Grows s t
      → (claim_approval rt r t).0 ≡ ok x
      → Takes r s (claim_approval rt r t).1
  claim-Takes r s t g claimed =
      let facts = claim_approval-taken rt r t claimed in
      record { free = free_before s t r.phase r.attempt_id g facts.0; taken_after = facts.1 }

  claim_simulation-cases :
      (intent : TransferIntent) (plan : AttemptPlan) (a : SimulationAuthorization) (at : Datetime)
      (s : Controls Q)
      → let (r, s') = claim_simulation rt intent plan a at s in
        Grows s s'
        × (((e : Error) × (r ≡ err e))
            ⊎ ((c : AuthorizationRecord × Json) × (r ≡ ok c) × Takes c.0 s s'))
  unfolding claim_simulation
  claim_simulation-cases intent plan a at s =
      elim (Result-cases (check_simulation rt intent plan a at)) [
        | inl (e, bad) ↦ rw bad (Grows-refl s, inl (e, refl))
        | inr (id, good) ↦
            let s1 = (prepare_attempt rt plan at s).1 in
            let g1 = prepare_attempt-Grows rt plan at s in
            elim (Result-cases (prepare_attempt rt plan at s).0) [
              | inl (e, bad) ↦ rw (good, bad) (g1, inl (e, refl))
              | inr (p, prepared) ↦ elim (Result-cases (simulation_body intent)) [
                | inl (e, bad) ↦ rw (good, prepared, bad) (g1, inl (e, refl))
                | inr (body, made) ↦
                    let s2 = (on_ledger initialize s1).1 in
                    let g2 =
                      Grows-then s s1 s2 g1 (on_ledger-Grows initialize initialize-claims s1) in
                    elim (Result-cases (on_ledger initialize s1).0) [
                      | inl (e, bad) ↦ rw (good, prepared, made, bad) (g2, inl (e, refl))
                      | inr (x, started) ↦
                          let r =
                            claim_of a.approval_reference Phase.simulation a.action_sheet_id plan id
                              (fingerprint_of rt body) at in
                          let g3 =
                            Grows-then s s2 (claim_approval rt r s2).1 g2
                              (claim_approval-Grows rt r s2) in
                          elim (Result-cases (claim_approval rt r s2).0) [
                            | inl (e, bad) ↦
                                rw (good, prepared, made, started, bad) (g3, inl (e, refl))
                            | inr (c, claimed) ↦
                                rw (good, prepared, made, started, claimed)
                                  (g3, inr ((r, body), refl, claim-Takes r s s2 g2 claimed))
                          ]
                    ]
              ]
            ]
      ]

  settle_simulation-Grows :
      (ref : String) (at : Datetime) (d : Result Simulated) (s : Controls Q)
      → Grows s (settle_simulation rt ref at d s).1
  unfolding settle_simulation
  settle_simulation-Grows ref at (err e) s =
      give_up-Grows rt _ ref at Code.simulation_outcome_unknown s
  settle_simulation-Grows ref at (ok d) s =
      let s1 = (finalize_best_effort rt ref (target_of_simulation d) at s).1 in
      let g1 = finalize-Grows rt ref (target_of_simulation d) at s in
      elim (Result-cases (finalize_best_effort rt ref (target_of_simulation d) at s).0) [
        | inl (e, bad) ↦ rw bad g1
        | inr (true, kept) ↦
            rw kept (Grows-then s s1 (load_receipt rt ref s1).1 g1 (load_receipt-Grows rt ref s1))
        | inr (false, lost) ↦ rw lost g1
      ]

  -- A simulation makes no call of the transport, or one, for which it has claimed an approval and the
  -- simulation of its attempt, which nobody had claimed before.
  pub simulate-posts :
      (transport : Transport Q) (intent : TransferIntent) (plan : AttemptPlan)
      (a : SimulationAuthorization) (at : Datetime) (s : Controls Q)
      → let t = (simulate rt transport intent plan a at s).1 in Grows s t ⊎ PostedOnce s t
  unfolding simulate
  simulate-posts transport intent plan a at s =
      let s1 = (claim_simulation rt intent plan a at s).1 in
      let (g1, cases) = claim_simulation-cases intent plan a at s in
      elim cases [
        | inl (e, bad) ↦ rw bad (inl g1)
        | inr (c, claimed, takes) ↦
            let post : Post = record { body = c.1; idempotency_key = none } in
            let sent = post_transfer transport c.0 post s1 in
            rw claimed (
              inr (
                post-PostedOnce transport c.0 post s s1 _ g1 takes (
                  settle_simulation-Grows a.approval_reference at (classify_simulation sent.0)
                    sent.1)))
      ]

  claim_broadcast-cases :
      (p : BroadcastPort) (attempt : AttemptRecord) (s : Controls Q)
      → let (r, s') = claim_broadcast rt p attempt s in
        Grows s s'
        × (((e : Error) × (r ≡ err e))
            ⊎ ((c : AuthorizationRecord × Json) × (r ≡ ok c) × Takes c.0 s s'))
  unfolding claim_broadcast
  claim_broadcast-cases p attempt s = elim (Result-cases (check_attempt rt p attempt)) [
    | inl (e, bad) ↦ rw bad (Grows-refl s, inl (e, refl))
    | inr (x, good) ↦ elim (Result-cases (broadcast_body p.intent)) [
      | inl (e, bad) ↦ rw (good, bad) (Grows-refl s, inl (e, refl))
      | inr (body, made) ↦
          let r =
            claim_of p.authorization.approval_reference Phase.broadcast
              p.authorization.action_sheet_id attempt.plan attempt.attempt_id
              (fingerprint_of rt body) attempt.updated_at_utc in
          let g = claim_approval-Grows rt r s in
          elim (Result-cases (claim_approval rt r s).0) [
            | inl (e, bad) ↦ rw (good, made, bad) (g, inl (e, refl))
            | inr (c, claimed) ↦
                rw (good, made, claimed)
                  (g, inr ((r, body), refl, claim-Takes r s s (Grows-refl s) claimed))
          ]
    ]
  ]

  settle_broadcast-Grows :
      (p : BroadcastPort) (attempt : AttemptRecord) (result : Result ProviderResult)
      (s : Controls Q)
      → Grows s (settle_broadcast rt p attempt result s).1
  unfolding settle_broadcast
  settle_broadcast-Grows p attempt (err e) s =
      give_up-Grows rt _ p.authorization.approval_reference attempt.updated_at_utc
        Code.broadcast_outcome_unknown s
  settle_broadcast-Grows p attempt (ok result) s =
      let ref = p.authorization.approval_reference in
      let g = finalize-Grows rt ref (target_of_broadcast result) attempt.updated_at_utc s in
      elim (Result-cases
        (finalize_best_effort rt ref (target_of_broadcast result) attempt.updated_at_utc s).0) [
          | inl (e, bad) ↦ rw bad g
          | inr (b, kept) ↦ rw kept g
        ]

  -- A broadcast makes no call of the transport, or one, for which it has claimed an approval and the
  -- broadcast of its attempt, which nobody had claimed before.
  pub execute-posts :
      (transport : Transport Q) (p : BroadcastPort) (attempt : AttemptRecord) (s : Controls Q)
      → let t = (execute rt transport p attempt s).1 in Grows s t ⊎ PostedOnce s t
  unfolding execute
  execute-posts transport p attempt s =
      let s1 = (claim_broadcast rt p attempt s).1 in
      let (g1, cases) = claim_broadcast-cases p attempt s in
      elim cases [
        | inl (e, bad) ↦ rw bad (inl g1)
        | inr (c, claimed, takes) ↦
            let post : Post = record {
              body = c.1;
              idempotency_key = some attempt.plan.request_key;
            } in
            let sent = post_transfer transport c.0 post s1 in
            rw claimed (
              inr (
                post-PostedOnce transport c.0 post s s1 _ g1 takes
                  (settle_broadcast-Grows p attempt (classify_broadcast rt sent.0) sent.1)))
      ]
