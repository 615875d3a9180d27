-- ===== src/KeeperHub/OnePost.antt =====
-- Simulations and broadcasts on one ledger, in any order, with any other calls of the ledger, changes of
-- the attempt journal and outages between them. A call runs to its end before the next one starts.
use mathlib.Core.Path.{subst}
use nexus_vector_keeperhub.Prelude.{
  ℕ, ◌+◌, ◌≤◌, String, ◌≡◌, sym, ap, ◌⊎◌, inl, inr, Bool, true, false, ◌&&◌, List, [], ◌∷◌, ◌==◌,
  arith, eq_iff, Bool-cases, if◌then◌else◌,
}
use nexus_vector_keeperhub.Clock.{Datetime}
use nexus_vector_keeperhub.Runtime.{Runtime}
use nexus_vector_keeperhub.Attempt.{AttemptPlan, AttemptRecord}
use nexus_vector_keeperhub.Persistence.AttemptStore.{AttemptDb}
use nexus_vector_keeperhub.Persistence.AuthorizationLedger.{
  Phase, LedgerState, AuthorizationRecord, same_phase, claim, transition,
}
use nexus_vector_keeperhub.Persistence.AuthorizationLedger.Rows.{taken}
use nexus_vector_keeperhub.KeeperHub.Intent.{TransferIntent}
use nexus_vector_keeperhub.KeeperHub.Approvals.{SimulationAuthorization}
use nexus_vector_keeperhub.KeeperHub.Controlled.{Transport, Posted, Controls, on_ledger, simulate}
use nexus_vector_keeperhub.KeeperHub.Controlled.Claims.{
  Grows, on_ledger-Grows, claim-claims, transition-claims,
}
use nexus_vector_keeperhub.KeeperHub.Controlled.Posts.{PostedOnce, simulate-posts, execute-posts}
use nexus_vector_keeperhub.KeeperHub.Broadcast.{BroadcastPort, execute}

pub data Step {Q : Type 0} (rt : Runtime) (transport : Transport Q) (s : Controls Q)
    : Controls Q → Type 0 where
  simulates :
      (intent : TransferIntent) (plan : AttemptPlan) (a : SimulationAuthorization) (at : Datetime)
      → Step rt transport s (simulate rt transport intent plan a at s).1
  broadcasts :
      (p : BroadcastPort) (attempt : AttemptRecord)
      → Step rt transport s (execute rt transport p attempt s).1
  other_claim : (r : AuthorizationRecord) → Step rt transport s (on_ledger (claim rt r) s).1
  other_transition :
      (ref : String) (target : LedgerState) (at : Datetime)
      → Step rt transport s (on_ledger (transition rt ref target at) s).1
  journal : (db : AttemptDb) → Step rt transport s (record s { attempts = db })
  -- the database engine fails, or recovers
  outage :
      (faults : List Bool)
      → Step rt transport s (record s { ledger = record s.ledger { faults = faults } })

pub data Reach {Q : Type 0} (rt : Runtime) (transport : Transport Q) (s : Controls Q)
    : Controls Q → Type 0 where
  here : Reach rt transport s s
  next :
      {t u : Controls Q} → Reach rt transport s t → Step rt transport t u → Reach rt transport s u

-- How often the transport was called for a phase of an attempt.
abbrev pub count_posts : Phase → String → List Posted → ℕ
count_posts phase id [] = 0
count_posts phase id (p ∷ ps) =
    (if same_phase p.phase phase && p.attempt_id == id then 1 else 0) + count_posts phase id ps

-- At most one call was made, and none before the phase of the attempt was claimed.
pub record Inv {Q : Type 0} (phase : Phase) (id : String) (s : Controls Q) : Type 0 where
  pub once : count_posts phase id s.posts ≤ 1
  pub quiet : taken phase id s.ledger.tables ≡ false → count_posts phase id s.posts ≡ 0

same_phase→≡ : (a b : Phase) → same_phase a b ≡ true → a ≡ b
same_phase→≡ a b h = ground arith

module _ {Q : Type 0} (phase : Phase) (id : String) where
  Grows-Inv : (s t : Controls Q) → Inv phase id s → Grows s t → Inv phase id t
  Grows-Inv s t v g = record {
    once = subst (λ ps. count_posts phase id ps ≤ 1) (sym g.posts) v.once;
    quiet = λ h.
        subst (λ ps. count_posts phase id ps ≡ 0) (sym g.posts)
          (v.quiet (elim (Bool-cases (taken phase id s.ledger.tables)) [
            | inr free ↦ free
            | inl there ↦ absurd (ground (arith, h, g.claims phase id there))
          ]));
  }

  PostedOnce-Inv : (s t : Controls Q) → Inv phase id s → PostedOnce s t → Inv phase id t
  PostedOnce-Inv s t v o =
      elim (Bool-cases (same_phase o.posted.phase phase && o.posted.attempt_id == id)) [
        | inr other ↦ record {
          once =
              subst (λ ps. count_posts phase id ps ≤ 1) (sym o.posts)
                (ground (arith, other, v.once));
          quiet = λ h.
              subst (λ ps. count_posts phase id ps ≡ 0) (sym o.posts)
                (elim (Bool-cases (taken phase id s.ledger.tables)) [
                  | inr free ↦ ground (arith, other, v.quiet free)
                  | inl there ↦ absurd (ground (arith, h, o.claims phase id there))
                ]);
        }
        | inl this ↦
            let is_phase : o.posted.phase ≡ phase =
              same_phase→≡ o.posted.phase phase (ground (arith, this)) in
            let is_attempt : o.posted.attempt_id ≡ id =
              ground (arith, this, eq_iff o.posted.attempt_id id) in
            let at =
              λ (u : Controls Q) (b : Bool)
                  (h : taken o.posted.phase o.posted.attempt_id u.ledger.tables ≡ b).
                subst (λ i. taken phase i u.ledger.tables ≡ b) is_attempt
                  (subst (λ p. taken p o.posted.attempt_id u.ledger.tables ≡ b) is_phase h) in
            let none_before = v.quiet (at s false o.free) in
            let claimed = at t true o.claimed in
            record {
              once =
                  subst (λ ps. count_posts phase id ps ≤ 1) (sym o.posts)
                    (ground (arith, this, none_before));
              quiet = λ h. absurd (ground (arith, h, claimed));
            }
      ]

  cases-Inv : (s t : Controls Q) → Inv phase id s → Grows s t ⊎ PostedOnce s t → Inv phase id t
  cases-Inv s t v (inl g) = Grows-Inv s t v g
  cases-Inv s t v (inr o) = PostedOnce-Inv s t v o

  module _ (rt : Runtime) (transport : Transport Q) where
    Step-Inv : {s t : Controls Q} → Inv phase id s → Step rt transport s t → Inv phase id t
    Step-Inv {s} v (simulates intent plan a at) =
        cases-Inv s _ v (simulate-posts rt transport intent plan a at s)
    Step-Inv {s} v (broadcasts p attempt) = cases-Inv s _ v (execute-posts rt transport p attempt s)
    Step-Inv {s} v (other_claim r) =
        Grows-Inv s _ v (on_ledger-Grows (claim rt r) (claim-claims rt r) s)
    Step-Inv {s} v (other_transition ref target at) =
        Grows-Inv s _ v
          (on_ledger-Grows (transition rt ref target at) (transition-claims rt ref target at) s)
    Step-Inv v (journal db) = record { once = v.once; quiet = v.quiet }
    Step-Inv v (outage faults) = record { once = v.once; quiet = v.quiet }

    Reach-Inv : {s t : Controls Q} → Inv phase id s → Reach rt transport s t → Inv phase id t
    Reach-Inv v here = v
    Reach-Inv v (next run step) = Step-Inv (Reach-Inv v run) step

-- From a state in which the transport was not called, over any simulations, broadcasts, other claims and
-- transitions of the ledger, changes of the attempt journal and outages: the transport is called at
-- most once for the simulation of an attempt, and at most once for its broadcast.
pub at_most_one_post :
    {Q : Type 0} (rt : Runtime) (transport : Transport Q) (phase : Phase) (id : String)
    {s t : Controls Q}
    → s.posts ≡ []
    → Reach rt transport s t
    → count_posts phase id t.posts ≤ 1
at_most_one_post rt transport phase id {s} {t} fresh run =
    let start : Inv phase id s = record {
      once = subst (λ ps. count_posts phase id ps ≤ 1) (sym fresh) (ground arith);
      quiet = λ h. ap (count_posts phase id) fresh;
    } in
    (Reach-Inv phase id rt transport start run).once
