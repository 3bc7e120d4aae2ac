-- ===== src/Loop/Stale.antt =====
-- app/services/agent_run_recovery.py: the stale runs of a task, each under a lease.
use Prim.Native.String.{◌++◌ as concat}
use careerops_agent.Shared.{
  ℕ, suc, ◌-◌, String, Bool, true, false, not, ◌&&◌, Option, none, some, List, [], ◌∷◌, keep,
  length, leb, ◌==◌, Eq_nat, Eq_text,
}
use careerops_agent.Tool.Execution.{Platform}
use careerops_agent.Context.Task.{PlannedTask}
use careerops_agent.Run.Rows.{AgentRun, is_running}
use careerops_agent.Run.Lease.{
  default_lease_seconds, acquire_agent_run_lease, release_agent_run_lease,
}
use careerops_agent.Run.Worker.{last_activity_at}
use careerops_agent.Loop.Model.{AgentModel, Result, ok, raised, value_error}
use careerops_agent.Loop.Store.{Store, Engine, get_run}
use careerops_agent.Loop.Workflow.{Snapshot}
use careerops_agent.Loop.Resume.{AgentRunRecoveryDecision, Recovered}
use careerops_agent.Loop.Recovery.{recover_agent_run}

pub record AgentRunRecoveryReport : Type 0 where
  pub task_id : ℕ
  pub stale_before : ℕ
  pub scanned_count : ℕ
  pub recovered_count : ℕ
  pub decisions : List AgentRunRecoveryDecision

abbrev conflict : AgentRun → AgentRunRecoveryDecision
conflict run = record {
  run_id = run.id;
  previous_status = run.status;
  status = run.status;
  action = "lease_conflict";
  reason = "Another worker owns the AgentRun lease.";
}

abbrev counts : AgentRunRecoveryDecision → Bool
counts d = not (d.action == "needs_review") && not (d.action == "lease_conflict")

abbrev released : (run_id : ℕ) (owner : String) → Store → Store
released run_id owner s = record s { runs = (release_agent_run_lease run_id owner s.runs).1 }

-- The lease is released whatever the recovery comes to.
abbrev and_released : (run_id : ℕ) (owner : String) → Recovered → Recovered
and_released run_id owner none = none
and_released run_id owner (some (done, s)) = some (done, released run_id owner s)

-- The list of decisions, or the first exception.
abbrev Listed : Type 0
Listed = Option (Result (List AgentRunRecoveryDecision) × Store)

abbrev and_then : AgentRunRecoveryDecision → Listed → Listed
and_then d none = none
and_then d (some (raised x, s)) = some (raised x, s)
and_then d (some (ok ds, s)) = some (ok (d ∷ ds), s)

module _ (p : Platform) (saved : AgentRun → Option Snapshot) (engine : AgentModel → Engine)
    (models : (provider : String) (model : Option String) → Result AgentModel) where
  -- The run is loaded again after the lease was acquired.
  pub recover_owned : Store → PlannedTask → Option AgentRun → Recovered
  unfolding recover_agent_run
  recover_owned s task none = some (raised (record { kind = "AttributeError"; text = "no run" }), s)
  recover_owned s task (some run) = recover_agent_run saved p engine models s task run

  pub recover_claimed :
      Store → PlannedTask → (owner : String) → AgentRun → Option Bool × List AgentRun → Recovered
  unfolding recover_owned release_agent_run_lease
  recover_claimed s task owner run (none, runs) =
      some (value_error "lease owner is required and lease_seconds must be at least 3", s)
  recover_claimed s task owner run (some false, runs) = some (ok (conflict run), s)
  recover_claimed s task owner run (some true, runs) =
      let s' = record s { runs = runs } in
      and_released run.id owner (recover_owned s' task (get_run s' run.id))

  pub recover_one : Store → PlannedTask → AgentRun → Recovered
  unfolding recover_claimed acquire_agent_run_lease
  recover_one s task run =
      let owner = concat "recovery-api:" (p.uuid_hex s.db.uuids) in
      let s' = record s { db = record (s.db) { uuids = suc s.db.uuids } } in
      recover_claimed s' task owner run
        (acquire_agent_run_lease run.id owner default_lease_seconds s.db.outside.clock s.runs)

  pub recover_each : PlannedTask → List AgentRun → Store → Listed
  unfolding recover_one
  recover_each task [] s = some (ok [], s)
  recover_each task (run ∷ runs) s = elim (recover_one s task run) [
    | none ↦ none
    | some (raised x, s') ↦ some (raised x, s')
    | some (ok d, s') ↦ and_then d (recover_each task runs s')
  ]

  pub reported :
      PlannedTask
      → (stale_before scanned : ℕ) → Listed
      → Option (Result AgentRunRecoveryReport × Store)
  reported task stale_before scanned none = none
  reported task stale_before scanned (some (raised x, s)) = some (raised x, s)
  reported task stale_before scanned (some (ok ds, s)) = some (
    ok (record {
      task_id = task.id;
      stale_before = stale_before;
      scanned_count = scanned;
      recovered_count = length (keep counts ds);
      decisions = ds;
    }),
    s,
  )

  -- `recover_stale_agent_runs`
  unfoldable pub recover_stale_agent_runs :
      (stale_after_seconds : ℕ)
      → PlannedTask
      → Store
      → Option (Result AgentRunRecoveryReport × Store)
  unfolding recover_each reported last_activity_at
  recover_stale_agent_runs stale_after_seconds task s =
      let stale_before = s.db.outside.clock - stale_after_seconds in
      let stale =
        keep
          (λ r.
            r.task_id == task.id
            && is_running r.status
            && leb (last_activity_at s.steps r) stale_before)
          s.runs in
      reported task stale_before (length stale) (recover_each task stale s)
