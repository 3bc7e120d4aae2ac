-- ===== src/Loop/Resume.antt =====
-- app/services/agent_run_recovery.py: a run goes on, and then the workflow around it.
pub mod Ends
use Prim.Native.String.{◌++◌ as concat}
use careerops_agent.Shared.{
  ℕ, String, Bool, true, false, Option, none, some, [], ◌∷◌, ◌++◌, Eq_nat, Eq_text,
}
use careerops_agent.Shared.Text.{decimal}
use careerops_agent.Tool.Rows.{CallStatus}
use careerops_agent.Run.Rows.{AgentRun, RunStatus}
use careerops_agent.Loop.Model.{Result, ok, raised, Exception, value_error}
use careerops_agent.Loop.Store.{Store, Engine, get_run, put_run}
use careerops_agent.Loop.Record.{entry}
use careerops_agent.Loop.Engine.{run_engine}
use careerops_agent.Loop.Workflow.{
  AgentWorkflowState, Node, Snapshot, Progress, agent_workflow_version, continue_from,
}
use careerops_agent.Checkpoints.{require_checkpoint_version, checkpoint_version_error}

pub record AgentRunRecoveryDecision : Type 0 where
  pub run_id : ℕ
  pub previous_status : RunStatus
  pub status : RunStatus
  pub action : String
  pub reason : String

-- `none` is a loop out of fuel.
abbrev pub Recovered : Type 0
Recovered = Option (Result AgentRunRecoveryDecision × Store)

-- `TERMINAL_TOOL_STATUSES`
abbrev pub is_terminal : CallStatus → Bool
is_terminal CallStatus.succeeded = true
is_terminal CallStatus.failed = true
is_terminal CallStatus.denied = true
is_terminal _ = false

-- `_mark_run_for_review`
unfoldable pub mark_run_for_review :
    Store → AgentRun → (previous : RunStatus) (reason : String) → Recovered
unfolding decimal
mark_run_for_review s run previous reason =
    let reviewed = record run {
      status = RunStatus.needs_review;
      stop_reason = some "recovery_required";
      error = some reason;
    } in
    some (
      ok (record {
        run_id = run.id;
        previous_status = previous;
        status = RunStatus.needs_review;
        action = "needs_review";
        reason = reason;
      }),
      put_run reviewed (record s {
        entries =
            s.entries
            ++ entry run.task_id "agent_run" "needs_review"
                (concat "Recover stale Agent run " (concat (decimal run.id) ".")) reason
              ∷ [];
      }),
    )

-- `_finished_decision`
pub finished_decision :
    Option AgentRun
    → (previous : RunStatus) (action reason : String) → Result AgentRunRecoveryDecision
finished_decision none previous action reason = value_error "agent run not found"
finished_decision (some run) previous action reason = ok (record {
  run_id = run.id;
  previous_status = previous;
  status = run.status;
  action = action;
  reason = reason;
})

-- `saved` reads the workflow's last snapshot from the checkpoints of the graph library.
module _ (saved : AgentRun → Option Snapshot) where
  pub compatible_from : Option Snapshot → Option String
  unfolding require_checkpoint_version
  compatible_from none = none
  compatible_from (some snapshot) = elim (snapshot.next) [
    | [] ↦ none
    | ◌∷◌ n ns ↦
        require_checkpoint_version "agent workflow" agent_workflow_version
          snapshot.values.graph_version
  ]

  -- `require_agent_workflow_checkpoint_compatible`: the text of the error.
  unfoldable pub incompatible : AgentRun → Option String
  unfolding compatible_from
  incompatible run = compatible_from (saved run)

  module _ (e : Engine) where
    abbrev done_of : Progress → Option (Result (Unit {0}) × Store)
    done_of none = none
    done_of (some (raised x, s)) = some (raised x, s)
    done_of (some (ok w, s)) = some (ok tt, s)

    pub resume_from :
        Option String → Node → AgentWorkflowState → Store → Option (Result (Unit {0}) × Store)
    unfolding continue_from
    resume_from (some error) node values s = some (raised (checkpoint_version_error error), s)
    resume_from none node values s = done_of (continue_from e node values s)

    pub resume_snapshot : Option Snapshot → Store → Option (Result (Unit {0}) × Store)
    unfolding resume_from require_checkpoint_version
    resume_snapshot none s = some (ok tt, s)
    resume_snapshot (some snapshot) s = elim (snapshot.next) [
      | [] ↦ some (ok tt, s)
      | ◌∷◌ n ns ↦
          resume_from
            (require_checkpoint_version "agent workflow" agent_workflow_version
              snapshot.values.graph_version)
            n snapshot.values s
    ]

    -- `_resume_outer_workflow` and `resume_agent_workflow_if_interrupted`
    pub resume_outer_workflow : Option AgentRun → Store → Option (Result (Unit {0}) × Store)
    unfolding resume_snapshot
    resume_outer_workflow none s = some (value_error "agent run not found", s)
    resume_outer_workflow (some run) s = resume_snapshot (saved run) s

    pub after_outer :
        (run_id : ℕ) (previous : RunStatus) (action reason : String)
        → Option (Result (Unit {0}) × Store)
        → Recovered
    unfolding finished_decision
    after_outer run_id previous action reason none = none
    after_outer run_id previous action reason (some (raised x, s)) = some (raised x, s)
    after_outer run_id previous action reason (some (ok u, s)) =
        some (finished_decision (get_run s run_id) previous action reason, s)

    pub after_engine :
        (run_id : ℕ) (previous : RunStatus) (action reason : String) → Option Store → Recovered
    unfolding after_outer resume_outer_workflow
    after_engine run_id previous action reason none = none
    after_engine run_id previous action reason (some s) =
        after_outer run_id previous action reason (resume_outer_workflow (get_run s run_id) s)

    -- `engine.run`, `_resume_outer_workflow` and `_finished_decision`
    unfoldable pub resume :
        Store → (run_id : ℕ) (previous : RunStatus) (action reason : String) → Recovered
    unfolding after_engine run_engine
    resume s run_id previous action reason =
        after_engine run_id previous action reason (run_engine e s run_id)
