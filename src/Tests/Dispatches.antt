-- ===== src/Tests/Dispatches.antt =====
-- Runs of `dispatch` and of workers.
use nexus_vector_keeperhub.Dispatch.Outcomes.{Calls, dispatch_calls_once}
use nexus_vector_keeperhub.Dispatch.Exclusive.{count}
use nexus_vector_keeperhub.Persistence.AttemptStore.Progress.{started}
use nexus_vector_keeperhub.Prelude.{
  true, arith, ◌⊎◌, ◌≢◌, All, ℕ, ◌≤◌, ◌≡◌, refl, some, [], ◌∷◌, map,
}
use nexus_vector_keeperhub.Errors.{Error, ErrorClass, Code, Result, ok, err}
use nexus_vector_keeperhub.Clock.{utc}
use nexus_vector_keeperhub.Attempt.States.{AttemptState}
use nexus_vector_keeperhub.Persistence.AttemptStore.{StoredAttempt, AttemptRow}
use nexus_vector_keeperhub.Dispatch.{World, dispatch}
use nexus_vector_keeperhub.Dispatch.Workers.{System, begun, advance, Reach, run, here, next, update}
use nexus_vector_keeperhub.Dispatch.Once.{
  count_effect, IsSent, at_most_one_call, calls_are_journaled,
}
use nexus_vector_keeperhub.Tests.Fixtures.{
  toy, executable, plan_a, attempt_a, effect_a, ready_mission, world_0, accepting, failing,
}

abbrev state_of : Result StoredAttempt → Result AttemptState
state_of (ok s) = ok s.entry.state
state_of (err e) = err e

abbrev first_run : Result StoredAttempt × World ℕ
first_run = dispatch toy plan_a accepting (ok (some ready_mission)) (utc 5) world_0

-- An accepted dispatch ends acknowledged, with one call.
accepted_run :
    (state_of first_run.0 ≡ ok AttemptState.provider_acknowledged) × (first_run.1.provider ≡ 1)
unfolding executable
accepted_run = (refl, refl)

-- A second dispatch of the same plan is refused, and the port is not called again.
second_run :
    let (r, w) = dispatch toy plan_a accepting (ok (some ready_mission)) (utc 6) first_run.1 in
    (r ≡ err (record { class = ErrorClass.dispatch; code = Code.reconciliation_required }))
    × (w.provider ≡ 1)
unfolding executable
second_run = (refl, refl)

-- A port that raises leaves an outcome that is unknown, and so journaled.
raised_run :
    let (r, w) = dispatch toy plan_a failing (ok (some ready_mission)) (utc 5) world_0 in
    (r ≡ err (record { class = ErrorClass.dispatch; code = Code.execution_outcome_unknown }))
    × (map (λ (row : AttemptRow). row.state) w.attempts.tables
        ≡ AttemptState.execution_unknown ∷ [])
unfolding executable
raised_run = (refl, refl)

-- Two workers that dispatch one plan at the same time.
abbrev racing_start : System ℕ
racing_start = record { world = world_0; worker = λ i. begun plan_a (utc 5) }

abbrev run_worker : ℕ → System ℕ → System ℕ
run_worker i s = record {
  world = (advance toy accepting (ok (some ready_mission)) (s.worker i) s.world).1;
  worker =
      update s.worker i (advance toy accepting (ok (some ready_mission)) (s.worker i) s.world).0;
}

-- Both prepare, both try to claim, and both go on as far as they can.
abbrev raced : System ℕ
raced =
    run_worker 1
      (run_worker 0 (run_worker 1 (run_worker 0 (run_worker 1 (run_worker 0 racing_start)))))

raced-Reach : Reach toy accepting racing_start raced
raced-Reach =
    let found = ok (some ready_mission) in
    next
      (next (next (next (next (next here (run 0 found)) (run 1 found)) (run 0 found)) (run 1 found))
        (run 0 found))
      (run 1 found)

raced_calls : raced.world.provider ≡ 1
unfolding executable
raced_calls = refl

at_most_one_call_example : count_effect effect_a raced.world.calls ≤ 1
at_most_one_call_example =
    at_most_one_call toy accepting {s = racing_start} {t = raced} effect_a (refl, λ i. tt)
      raced-Reach

raced_once : count attempt_a raced.world.calls ≢ 0
unfolding executable
raced_once h = ground arith

calls_are_journaled_example :
    All (IsSent toy) raced.world.calls × (started attempt_a raced.world.attempts.tables ≡ true)
calls_are_journaled_example =
    calls_are_journaled toy accepting {s = racing_start} {t = raced} attempt_a (refl, λ i. tt)
      raced-Reach raced_once

dispatch_calls_once_example :
    let (r, w') = dispatch toy plan_a accepting (ok (some ready_mission)) (utc 5) world_0 in
    ((e : Error) × (r ≡ err e) × (w'.calls ≡ world_0.calls) × (w'.provider ≡ world_0.provider))
    ⊎ Calls toy accepting plan_a (ok (some ready_mission)) world_0 r w'
dispatch_calls_once_example =
    dispatch_calls_once toy accepting plan_a (ok (some ready_mission)) (utc 5) world_0
