-- ===== src/Loop/Workflow/Examples.antt =====
-- A workflow that stopped after its agent had run, from before there were versions.
use careerops_agent.Shared.{◌≡◌, refl, true, none, some, [], ◌∷◌, ok, raised}
use careerops_agent.Checkpoints.{
  unversioned_checkpoint, checkpoint_version_error, require_checkpoint_version,
}
use careerops_agent.Run.Rows.{RunStatus}
use careerops_agent.Loop.Workflow.{Snapshot, run_agent, evaluate_result, agent_workflow_version}
use careerops_agent.Loop.Workflow.Migration.{
  successors, unversioned, migrate_agent_workflow_checkpoint,
  migrate_agent_workflow_checkpoint_once,
}

abbrev stopped : Snapshot
stopped = record {
  values = record {
    graph_version = none;
    task_id = 4;
    run_id = 2;
    provider = "demo";
    model = "m";
    max_steps = 3;
    context_ready = true;
    agent_status = RunStatus.completed;
    final_answer = some "done";
    stop_reason = none;
    evaluation_errors = [];
    workflow_status = "agent_finished";
    node_history = "load_context" ∷ "run_agent" ∷ [];
  };
  next = evaluate_result ∷ [];
}

migrate_agent_workflow_checkpoint_once_example :
    (s' : Snapshot) × (migrate_agent_workflow_checkpoint unversioned_checkpoint (some stopped)
      ≡ ok s')
    × (s'.next ≡ evaluate_result ∷ [])
    × (unversioned s'.values ≡ stopped.values)
    × (require_checkpoint_version "agent workflow" agent_workflow_version s'.values.graph_version
        ≡ none)
    × (migrate_agent_workflow_checkpoint unversioned_checkpoint (some s')
        ≡ raised (
            checkpoint_version_error
              "checkpoint source version is 'agent-workflow-v1', not requested 'unversioned'"))
unfolding successors
migrate_agent_workflow_checkpoint_once_example =
    migrate_agent_workflow_checkpoint_once stopped run_agent refl refl (λ h. cc)
