-- ===== src/Run/Worker.antt =====
-- app/services/agent_run_worker.py: what the workers read and write of runs. The thread pool is left
-- out.
pub mod Examples
pub mod Lost
use careerops_agent.Shared.{
  ℕ, ◌-◌, String, Bool, not, ◌&&◌, ◌||◌, Option, none, some, List, [], ◌∷◌, ◌++◌, map, keep, first,
  last, update_where, leb, if◌then◌else◌, ◌==◌, Eq_nat, Eq_text, Eq_option,
}
use careerops_agent.Run.Rows.{AgentRun, RunStep, RunStatus, is_running}

-- The `ExecutionTrace` of a failure, whose metadata names the run.
pub record FailureTrace : Type 0 where
  pub task_id : ℕ
  pub agent_run_id : ℕ
  pub output_summary : String

abbrev pub failed_run : (now : ℕ) (reason : String) → AgentRun → AgentRun
failed_run now reason run = record run {
  status = RunStatus.failed;
  stop_reason = some "worker_failed";
  error = some reason;
  completed_at = some now;
}

fail_found :
    Option AgentRun
    → (now run_id : ℕ) (owner reason : String) → List AgentRun × List FailureTrace
    → List AgentRun × List FailureTrace
fail_found none now run_id owner reason (runs, traces) = (runs, traces)
fail_found (some run) now run_id owner reason (runs, traces) =
    if not (is_running run.status) || not (run.lease_owner == some owner) then (runs, traces) else (
      update_where (λ r. r.id == run_id) (failed_run now reason) runs,
      traces
          ++ (record { task_id = run.task_id; agent_run_id = run.id; output_summary = reason })
            ∷ [],
    )

-- `_record_failure`
pub record_failure :
    (now run_id : ℕ) (owner reason : String)
    → List AgentRun × List FailureTrace
    → List AgentRun × List FailureTrace
unfolding fail_found
record_failure now run_id owner reason (runs, traces) =
    fail_found (first (λ r. r.id == run_id) runs) now run_id owner reason (runs, traces)

-- `run.steps`, in the order of their sequence numbers, which is that of their insertion.
abbrev pub steps_of : List RunStep → (run_id : ℕ) → List RunStep
steps_of steps run_id = keep (λ s. s.run_id == run_id) steps

-- `_last_activity_at` of app/services/agent_run_recovery.py, which the pool writes out.
unfoldable pub last_activity_at : List RunStep → AgentRun → ℕ
last_activity_at steps run = elim (last (steps_of steps run.id)) [
  | none ↦ run.started_at
  | some step ↦ step.created_at
]

-- The runs that `schedule_startup_recovery` submits.
pub schedule_startup_recovery :
    (now stale_after_seconds : ℕ) → List RunStep → List AgentRun → List ℕ
unfolding last_activity_at
schedule_startup_recovery now stale_after_seconds steps runs =
    map (λ r. r.id)
      (keep (λ r. is_running r.status && leb (last_activity_at steps r) (now - stale_after_seconds))
        runs)
