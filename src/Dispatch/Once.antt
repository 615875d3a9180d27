-- ===== src/Dispatch/Once.antt =====
-- The promise of the product: an economic effect reaches the provider at most once.
use mathlib.Core.Bool.{false≢true}
use nexus_vector_keeperhub.Prelude.{
  ℕ, ◌+◌, ◌≤◌, String, ◌≡◌, refl, sym, ap, ◌∙◌, true, false, Option, List, [], ◌∷◌, arith, ◌==◌,
  eq_iff, Bool-cases, if◌then◌else◌, inl, inr, All, if_both, nat_eq, false, ◌≢◌,
}
use nexus_vector_keeperhub.Errors.{Error, Result, ok, err, Result-cases}
use nexus_vector_keeperhub.Clock.{Datetime}
use nexus_vector_keeperhub.Runtime.{Runtime}
use nexus_vector_keeperhub.Mission.Records.{StoredMission}
use nexus_vector_keeperhub.Attempt.{AttemptRecord, derive_attempt_id}
use nexus_vector_keeperhub.Attempt.States.{AttemptState}
use nexus_vector_keeperhub.Attempt.Moves.{IsValid}
use nexus_vector_keeperhub.Persistence.AttemptStore.{StoredAttempt}
use nexus_vector_keeperhub.Persistence.AttemptStore.Progress.{started}
use nexus_vector_keeperhub.Dispatch.{Port, World, prepare, claim, call_port}
use nexus_vector_keeperhub.Dispatch.Claims.{prepare-calls, claim-calls, claim-starts, settle-calls}
use nexus_vector_keeperhub.Dispatch.Exclusive.{count, holds, Inv, Inv-Reach}
use nexus_vector_keeperhub.Dispatch.Workers.{
  Worker, begun, ready, claimed, called, finished, after_claim, System, advance, update, Step,
  Reach, run, restart, other_transition, other_create, outage, here, next,
}

-- How often the port was called for an effect.
abbrev pub count_effect : String → List AttemptRecord → ℕ
count_effect e [] = 0
count_effect e (r ∷ rs) = (if r.plan.effect_id == e then 1 else 0) + count_effect e rs

-- No worker has a claim that it has not used.
abbrev pub IsUnclaimed : Worker → Type 0
IsUnclaimed (claimed s at) = ⊥
IsUnclaimed _ = Unit

-- A system before the first call of the port; its journal may hold anything.
abbrev pub IsFresh : {P : Type 0} → System P → Type 0
IsFresh s = (s.world.calls ≡ []) × ((i : ℕ) → IsUnclaimed (s.worker i))

-- What the port is called with: a valid attempt, which is durably IN_FLIGHT.
abbrev pub IsSent : Runtime → AttemptRecord → Type 0
IsSent rt r = IsValid rt r × (r.state ≡ AttemptState.in_flight)

abbrev IsSendable : Runtime → Worker → Type 0
IsSendable rt (claimed s at) = IsSent rt s.entry
IsSendable rt _ = Unit

abbrev Sends : {P : Type 0} → Runtime → System P → Type 0
Sends rt s = All (IsSent rt) s.world.calls × ((i : ℕ) → IsSendable rt (s.worker i))

module _ {P : Type 0} (rt : Runtime) (port : Port P) where
  IsSendable-update :
      (f : ℕ → Worker) (i : ℕ) (x : Worker)
      → IsSendable rt x
      → ((j : ℕ) → IsSendable rt (f j))
      → (j : ℕ) → IsSendable rt (update f i x j)
  IsSendable-update f i x hx hf j = if_both (IsSendable rt) (nat_eq i j) hx (hf j)

  Sends-claiming :
      (s : StoredAttempt) (at : Datetime) (w : World P)
      → IsSendable rt (after_claim at (claim rt s at w).0)
  Sends-claiming s at w = elim (Result-cases (claim rt s at w).0) [
    | inl (e, refused) ↦ rw refused tt
    | inr (c, won) ↦ rw won ((claim-starts rt s at w won).1, (claim-starts rt s at w won).0)
  ]

  Sends-advance :
      (s : System P) (i : ℕ) (found : Result (Option StoredMission)) (x : Worker)
      → IsSendable rt x
      → All (IsSent rt) s.world.calls
      → All (IsSent rt) (advance rt port found x s.world).1.calls
        × IsSendable rt (advance rt port found x s.world).0
  unfolding advance call_port
  Sends-advance s i found (begun plan at) h v = (
    rw (prepare-calls rt plan found at s.world).0 v,
    elim (Result-cases (prepare rt plan found at s.world).0) [
      | inl (e, refused) ↦ rw refused tt
      | inr (c, won) ↦ rw won tt
    ],
  )
  Sends-advance s i found (ready c at) h v =
      (rw (claim-calls rt c at s.world).0 v, Sends-claiming c at s.world)
  Sends-advance s i found (claimed c at) h v = ((h, v), tt)
  Sends-advance s i found (called reply c at) h v =
      (rw (settle-calls rt reply c at s.world).0 v, tt)
  Sends-advance s i found (finished r) h v = (v, tt)

  Sends-Step : {s t : System P} → Step rt port s t → Sends rt s → Sends rt t
  Sends-Step {s} (run i found) v =
      let after = Sends-advance s i found (s.worker i) (v.1 i) v.0 in
      (after.0, IsSendable-update s.worker i _ after.1 v.1)
  Sends-Step {s} (restart i plan at) v = (v.0, IsSendable-update s.worker i _ tt v.1)
  Sends-Step (other_transition id expected target at) v = v
  Sends-Step (other_create r) v = v
  Sends-Step (outage faults) v = v

  Sends-Reach : {s t : System P} → Reach rt port s t → Sends rt s → Sends rt t
  Sends-Reach here v = v
  Sends-Reach (next r st) v = Sends-Step st (Sends-Reach r v)

IsSendable-unclaimed : (rt : Runtime) (x : Worker) → IsUnclaimed x → IsSendable rt x
IsSendable-unclaimed rt (claimed s at) h = absurd h
IsSendable-unclaimed rt _ h = tt

holds-unclaimed : (a : String) (x : Worker) → IsUnclaimed x → holds a x ≡ false
holds-unclaimed a (claimed s at) h = absurd h
holds-unclaimed a _ h = refl

-- Valid attempts of one effect have one identifier.
count_effect-count :
    (rt : Runtime) (e a : String) (l : List AttemptRecord)
    → derive_attempt_id rt e ≡ ok a
    → All (IsSent rt) l
    → count_effect e l ≤ count a l
count_effect-count rt e a [] d v = omega arith
count_effect-count rt e a (r ∷ l) d v = elim (Bool-cases (r.plan.effect_id == e)) [
  | inr other ↦ ground (arith, count_effect-count rt e a l d v.1)
  | inl this ↦
      let named : ok r.attempt_id ≡ ok a =
        sym v.0.0.derived ∙ ap (derive_attempt_id rt) ((eq_iff r.plan.effect_id e).0 this) ∙ d in
      ground (arith, count_effect-count rt e a l d v.1, eq_iff r.attempt_id a)
]

-- A text that no attempt can be derived from is the effect of none.
count_effect-underivable :
    (rt : Runtime) (e : String) (l : List AttemptRecord) {x : Error}
    → derive_attempt_id rt e ≡ err x
    → All (IsSent rt) l
    → count_effect e l ≡ 0
count_effect-underivable rt e [] d v = refl
count_effect-underivable rt e (r ∷ l) {x} d v = elim (Bool-cases (r.plan.effect_id == e)) [
  | inr other ↦ ground (arith, count_effect-underivable rt e l d v.1)
  | inl this ↦
      let clash : ok r.attempt_id ≡ err x =
        sym v.0.0.derived ∙ ap (derive_attempt_id rt) ((eq_iff r.plan.effect_id e).0 this) ∙ d in
      cc
]

Inv-fresh : {P : Type 0} (s : System P) (a : String) → IsFresh s → Inv a s
Inv-fresh s a fresh =
    let quiet : count a s.world.calls ≡ 0 = ap (count a) fresh.0 in
    let unheld = λ (i : ℕ) (h : holds a (s.worker i) ≡ true).
      false≢true (sym (holds-unclaimed a (s.worker i) (fresh.1 i)) ∙ h) in
    record {
      once = omega (arith, quiet);
      past = λ n. absurd (n quiet);
      owner = λ i h. quiet;
      owned = λ i h. absurd (unheld i h);
      unique = λ i j h k. absurd (unheld i h);
    }

Sends-fresh : {P : Type 0} (rt : Runtime) (s : System P) → IsFresh s → Sends rt s
Sends-fresh rt s fresh = (rw fresh.0 tt, λ i. IsSendable-unclaimed rt (s.worker i) (fresh.1 i))

module _ {P : Type 0} (rt : Runtime) (port : Port P) {s t : System P} where
  -- From a system that has not called the port, in which dispatches run side by side, crash, start
  -- again, meet outages of the database, and other components move and create attempts: the port
  -- has been called for any one effect at most once.
  pub at_most_one_call :
      (e : String) → IsFresh s → Reach rt port s t → count_effect e t.world.calls ≤ 1
  at_most_one_call e fresh r =
      let sent = (Sends-Reach rt port r (Sends-fresh rt s fresh)).0 in
      elim (Result-cases (derive_attempt_id rt e)) [
        | inl (x, bad) ↦ omega (arith, count_effect-underivable rt e t.world.calls bad sent)
        | inr (a, derived) ↦ omega (
          arith,
          count_effect-count rt e a t.world.calls derived sent,
          (Inv-Reach rt port a r (Inv-fresh s a fresh)).once,
        )
      ]

  -- From a system that has not called the port, with the interleavings, crashes and outages of
  -- `Step`, every call of the port was made with an attempt that is valid and IN_FLIGHT; and an attempt that the port has been called with has a row in the journal that has durably
  -- left PREPARED.
  pub calls_are_journaled :
      (a : String)
      → IsFresh s
      → Reach rt port s t
      → count a t.world.calls ≢ 0
      → All (IsSent rt) t.world.calls × (started a t.world.attempts.tables ≡ true)
  calls_are_journaled a fresh r made = (
    (Sends-Reach rt port r (Sends-fresh rt s fresh)).0,
    (Inv-Reach rt port a r (Inv-fresh s a fresh)).past made,
  )
