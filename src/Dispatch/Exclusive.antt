-- ===== src/Dispatch/Exclusive.antt =====
-- However dispatches interleave, restart and meet outages, one attempt reaches the port once.
use mathlib.Core.Bool.{false≢true}
use nexus_vector_keeperhub.Prelude.{
  ℕ, ◌+◌, ◌≤◌, String, ◌≡◌, ◌≢◌, refl, sym, ap, ◌∙◌, Bool, true, false, Option, List, [], ◌∷◌,
  arith, ◌==◌, eq_iff, nat_eq, Bool-cases, if◌then◌else◌, inl, inr,
}
use nexus_vector_keeperhub.Errors.{Result, Result-cases}
use nexus_vector_keeperhub.Clock.{Datetime}
use nexus_vector_keeperhub.Runtime.{Runtime}
use nexus_vector_keeperhub.Mission.Records.{StoredMission}
use nexus_vector_keeperhub.Attempt.{AttemptRecord}
use nexus_vector_keeperhub.Persistence.AttemptStore.{StoredAttempt}
use nexus_vector_keeperhub.Persistence.AttemptStore.Progress.{
  started, create-started, transition-started,
}
use nexus_vector_keeperhub.Dispatch.{Port, World, claim, call_port}
use nexus_vector_keeperhub.Dispatch.Claims.{
  prepare-calls, prepare-started, claim-calls, claim-started, claim-starts, settle-calls,
  settle-started,
}
use nexus_vector_keeperhub.Dispatch.Workers.{
  Worker, begun, ready, claimed, called, finished, after_claim, System, advance, update, Step,
  Reach, run, restart, other_transition, other_create, outage, here, next,
}

-- How often the port was called for an attempt.
abbrev pub count : String → List AttemptRecord → ℕ
count a [] = 0
count a (r ∷ rs) = (if r.attempt_id == a then 1 else 0) + count a rs

-- The worker has claimed the attempt and has not called the port yet.
abbrev pub holds : String → Worker → Bool
holds a (claimed s at) = s.entry.attempt_id == a
holds a _ = false

-- What is true of an attempt at any time: a claim excludes other claims and earlier calls.
pub record Inv {P : Type 0} (a : String) (s : System P) : Type 0 where
  pub once : count a s.world.calls ≤ 1
  pub past : count a s.world.calls ≢ 0 → started a s.world.attempts.tables ≡ true
  pub owner : (i : ℕ) → holds a (s.worker i) ≡ true → count a s.world.calls ≡ 0
  pub owned : (i : ℕ) → holds a (s.worker i) ≡ true → started a s.world.attempts.tables ≡ true
  pub unique : (i j : ℕ) → holds a (s.worker i) ≡ true → holds a (s.worker j) ≡ true → i ≡ j

module _ {P : Type 0} (a : String) where
  -- A worker that holds no claim on `a` takes a step that calls nothing and takes nothing back.
  Inv-idle :
      (s : System P) (i : ℕ) (x : Worker) (w : World P)
      → Inv a s
      → w.calls ≡ s.world.calls
      → (started a s.world.attempts.tables ≡ true → started a w.attempts.tables ≡ true)
      → holds a x ≡ false
      → Inv a (record { world = w; worker = update s.worker i x })
  Inv-idle s i x w v same keeps idle = record {
    once = rw same v.once;
    past = λ n. keeps (v.past (λ z. n (rw same z)));
    owner = λ j h. rw same (v.owner j (ground arith));
    owned = λ j h. keeps (v.owned j (ground arith));
    unique = λ j k hj hk. v.unique j k (ground arith) (ground arith);
  }

  -- An attempt that was not started was never called and is claimed by nobody.
  quiet :
      (s : System P)
      → Inv a s
      → started a s.world.attempts.tables ≡ false
      → count a s.world.calls ≡ 0
  quiet s v before = elim (Bool-cases (nat_eq (count a s.world.calls) 0)) [
    | inl z ↦ ground arith
    | inr n ↦ absurd (false≢true (sym before ∙ v.past (λ z. ground arith)))
  ]

  free :
      (s : System P) (j : ℕ)
      → Inv a s
      → started a s.world.attempts.tables ≡ false
      → holds a (s.worker j) ≡ false
  free s j v before = elim (Bool-cases (holds a (s.worker j))) [
    | inl held ↦ absurd (false≢true (sym before ∙ v.owned j held))
    | inr not_held ↦ not_held
  ]

  -- The claim of `a`: nobody held it, and it was never called.
  Inv-claim :
      (s : System P) (i : ℕ) (x : Worker) (w : World P)
      → Inv a s
      → w.calls ≡ s.world.calls
      → started a s.world.attempts.tables ≡ false
      → started a w.attempts.tables ≡ true
      → Inv a (record { world = w; worker = update s.worker i x })
  Inv-claim s i x w v same before after =
      let none_called : count a w.calls ≡ 0 = rw same (quiet s v before) in
      record {
        once = omega (arith, none_called);
        past = λ n. after;
        owner = λ j h. none_called;
        owned = λ j h. after;
        unique = λ j k hj hk. ground (arith, free s j v before, free s k v before);
      }

  -- The call: the claim is used up.
  Inv-call :
      (s : System P) (i : ℕ) (x : Worker) (w : World P) (r : AttemptRecord)
      → Inv a s
      → w.calls ≡ r ∷ s.world.calls
      → w.attempts ≡ s.world.attempts
      → (r.attempt_id == a) ≡ holds a (s.worker i)
      → holds a x ≡ false
      → Inv a (record { world = w; worker = update s.worker i x })
  Inv-call s i x w r v pushed kept used idle = elim (Bool-cases (holds a (s.worker i))) [
    | inl mine ↦
        let begun' = v.owned i mine in
        let none_yet = v.owner i mine in
        record {
          once = rw pushed (ground arith);
          past = λ n. rw kept begun';
          owner = λ j h. absurd (ground (arith, v.unique i j));
          owned = λ j h. rw kept begun';
          unique = λ j k hj hk. absurd (ground (arith, v.unique i j));
        }
    | inr other ↦
        let same : count a w.calls ≡ count a s.world.calls = rw pushed (ground arith) in
        record {
          once = rw same v.once;
          past = λ n. rw kept (v.past (λ z. n (same ∙ z)));
          owner = λ j h. same ∙ v.owner j (ground arith);
          owned = λ j h. rw kept (v.owned j (ground arith));
          unique = λ j k hj hk. v.unique j k (ground arith) (ground arith);
        }
  ]

  -- Another component works on the journal.
  Inv-world :
      (s : System P) (w : World P)
      → Inv a s
      → w.calls ≡ s.world.calls
      → (started a s.world.attempts.tables ≡ true → started a w.attempts.tables ≡ true)
      → Inv a (record s { world = w })
  Inv-world s w v same keeps = record {
    once = rw same v.once;
    past = λ n. keeps (v.past (λ z. n (rw same z)));
    owner = λ j h. rw same (v.owner j h);
    owned = λ j h. keeps (v.owned j h);
    unique = v.unique;
  }

module _ {P : Type 0} (rt : Runtime) (port : Port P) (a : String) where
  -- The step of a worker that claims, whether the claim succeeds or not.
  Inv-claiming :
      (s : System P) (i : ℕ) (c : StoredAttempt) (at : Datetime)
      → Inv a s
      → Inv a (record {
        world = (claim rt c at s.world).1;
        worker = update s.worker i (after_claim at (claim rt c at s.world).0);
      })
  Inv-claiming s i c at v =
      let idle = λ (h : holds a (after_claim at (claim rt c at s.world).0) ≡ false).
        Inv-idle a s i (after_claim at (claim rt c at s.world).0) (claim rt c at s.world).1 v
          (claim-calls rt c at s.world).0 (claim-started rt a c at s.world) h in
      elim (Result-cases (claim rt c at s.world).0) [
        | inl (e, refused) ↦ idle (ap (λ r. holds a (after_claim at r)) refused)
        | inr (c', won) ↦ elim (Bool-cases (c'.entry.attempt_id == a)) [
          | inr other ↦ idle (ap (λ r. holds a (after_claim at r)) won ∙ other)
          | inl this ↦
              let started' = claim-starts rt c at s.world won in
              let id : c'.entry.attempt_id ≡ a = (eq_iff c'.entry.attempt_id a).0 this in
              Inv-claim a s i (after_claim at (claim rt c at s.world).0) (claim rt c at s.world).1 v
                (claim-calls rt c at s.world).0 (rw (← id) started'.2) (rw (← id) started'.3)
        ]
      ]

  Inv-advance :
      (s : System P) (i : ℕ) (found : Result (Option StoredMission)) (x : Worker)
      → s.worker i ≡ x
      → Inv a s
      → Inv a (record {
        world = (advance rt port found x s.world).1;
        worker = update s.worker i (advance rt port found x s.world).0;
      })
  unfolding advance call_port
  Inv-advance s i found (begun plan at) e v =
      Inv-idle a s i _ _ v (prepare-calls rt plan found at s.world).0
        (prepare-started rt a plan found at s.world) (ground arith)
  Inv-advance s i found (ready c at) e v = Inv-claiming s i c at v
  Inv-advance s i found (claimed c at) e v =
      Inv-call a s i _ _ c.entry v refl refl (ap (holds a) (sym e)) refl
  Inv-advance s i found (called reply c at) e v =
      Inv-idle a s i _ _ v (settle-calls rt reply c at s.world).0
        (settle-started rt a reply c at s.world) refl
  Inv-advance s i found (finished r) e v = Inv-idle a s i _ _ v refl (λ h. h) refl

  Inv-Step : {s t : System P} → Step rt port s t → Inv a s → Inv a t
  Inv-Step {s} (run i found) v = Inv-advance s i found (s.worker i) refl v
  Inv-Step {s} (restart i plan at) v = Inv-idle a s i _ _ v refl (λ h. h) refl
  Inv-Step {s} (other_transition id expected target at) v =
      Inv-world a s _ v refl (transition-started rt a id expected target at s.world.attempts)
  Inv-Step {s} (other_create r) v = Inv-world a s _ v refl (create-started rt a r s.world.attempts)
  Inv-Step {s} (outage faults) v = Inv-world a s _ v refl (λ h. h)

  pub Inv-Reach : {s t : System P} → Reach rt port s t → Inv a s → Inv a t
  Inv-Reach here v = v
  Inv-Reach (next r st) v = Inv-Step st (Inv-Reach r v)
