-- ===== src/Dispatch/Workers.antt =====
-- Dispatches that run side by side on one journal: processes, threads, restarts and outages of the
-- database. A worker runs `dispatch`, one transaction or one call of the port at a time; between
-- two of its steps all others may run. The Mission lookup may answer anything at each dispatch.
use nexus_vector_keeperhub.Prelude.{
  ℕ, String, ◌≡◌, Bool, Option, List, arith, nat_eq, if◌then◌else◌,
}
use nexus_vector_keeperhub.Errors.{Result, ok, err}
use nexus_vector_keeperhub.Clock.{Datetime}
use nexus_vector_keeperhub.Runtime.{Runtime}
use nexus_vector_keeperhub.Mission.Records.{StoredMission}
use nexus_vector_keeperhub.Attempt.{AttemptPlan, AttemptRecord}
use nexus_vector_keeperhub.Attempt.States.{AttemptState}
use nexus_vector_keeperhub.Persistence.AttemptStore.{StoredAttempt, create, transition}
use nexus_vector_keeperhub.Dispatch.{
  PortReply, Port, World, on_attempts, prepare, claim, call_port, settle, dispatch,
}

-- How far a worker is in its call of `dispatch`; `finished` holds what the call came back with.
pub data Worker : Type 0 where
  begun : AttemptPlan → Datetime → Worker
  ready claimed : StoredAttempt → Datetime → Worker
  called : PortReply → StoredAttempt → Datetime → Worker
  finished : Result StoredAttempt → Worker

abbrev pub after_prepare : Datetime → Result StoredAttempt → Worker
after_prepare at (ok s) = ready s at
after_prepare at (err e) = finished (err e)

abbrev pub after_claim : Datetime → Result StoredAttempt → Worker
after_claim at (ok s) = claimed s at
after_claim at (err e) = finished (err e)

pub record System (P : Type 0) : Type 0 where
  pub world : World P
  pub worker : ℕ → Worker

module _ {P : Type 0} (rt : Runtime) (port : Port P) where
  -- One step of a worker.
  unfoldable pub advance : Result (Option StoredMission) → Worker → World P → Worker × World P
  advance found (begun plan at) w =
      let (r, w') = prepare rt plan found at w in (after_prepare at r, w')
  advance found (ready s at) w = let (r, w') = claim rt s at w in (after_claim at r, w')
  advance found (claimed s at) w =
      let (reply, w') = call_port port s.entry w in (called reply s at, w')
  advance found (called reply s at) w = let (r, w') = settle rt reply s at w in (finished r, w')
  advance found (finished r) w = (finished r, w)

  -- Four steps with nothing in between are the call of `dispatch`.
  pub advance-dispatch :
      (plan : AttemptPlan) (found : Result (Option StoredMission)) (at : Datetime) (w : World P)
      → let step = λ (s : Worker × World P). advance found s.0 s.1 in
        step (step (step (step (begun plan at, w))))
        ≡ (finished (dispatch rt plan port found at w).0, (dispatch rt plan port found at w).1)
  unfolding advance dispatch
  advance-dispatch plan found at w = ground arith

abbrev pub update : (ℕ → Worker) → ℕ → Worker → ℕ → Worker
update f i x j = if nat_eq i j then x else f j

-- A step of the whole system. Other components may move and create attempts by any call of the
-- store, but the port is called by `dispatch` alone.
pub data Step {P : Type 0} (rt : Runtime) (port : Port P) (s : System P) : System P → Type 0 where
  run :
      (i : ℕ) (found : Result (Option StoredMission))
      → Step rt port s (record {
        world = (advance rt port found (s.worker i) s.world).1;
        worker = update s.worker i (advance rt port found (s.worker i) s.world).0;
      })
  -- a crash, or a new call of `dispatch` by a worker that may have crashed
  restart :
      (i : ℕ) (plan : AttemptPlan) (at : Datetime)
      → Step rt port s (record s { worker = update s.worker i (begun plan at) })
  other_transition :
      (id : String) (expected : ℕ) (target : AttemptState) (at : Datetime)
      → Step rt port s
          (record s { world = (on_attempts (transition rt id expected target at) s.world).1 })
  other_create :
      (r : AttemptRecord)
      → Step rt port s (record s { world = (on_attempts (create rt r) s.world).1 })
  -- the database engine fails, or recovers
  outage :
      (faults : List Bool)
      → Step rt port s (record s {
        world = record s.world { attempts = record s.world.attempts { faults = faults } };
      })

pub data Reach {P : Type 0} (rt : Runtime) (port : Port P) (s : System P) : System P → Type 0 where
  here : Reach rt port s s
  next : {t u : System P} → Reach rt port s t → Step rt port t u → Reach rt port s u
