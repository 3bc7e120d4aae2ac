-- ===== src/Loop/Workflow.antt =====
-- app/services/agent_workflow.py: the graph around a run.
-- The graph library runs a node, keeps a snapshot of the state and goes on along the edges.
pub mod Honest
pub mod Ends
pub mod Migration
pub mod Examples
use Prim.Native.String.{◌++◌ as concat}
use careerops_agent.Shared.{
  ℕ, String, Bool, true, false, not, ◌&&◌, ◌||◌, Option, none, some, List, [], ◌∷◌, ◌++◌, is_none,
  if◌then◌else◌, ◌==◌, Eq_text, Eq_option, or_else,
}
use careerops_agent.Run.Rows.{RunStatus, AgentRun, is_running}
use careerops_agent.Loop.Model.{AgentModel, Exception, Result, ok, raised, value_error}
use careerops_agent.Loop.Store.{Store, Engine, get_run, get_task}
use careerops_agent.Loop.Engine.{run_engine}

abbrev pub agent_workflow_version : String
agent_workflow_version = "agent-workflow-v1"

pub record AgentWorkflowState : Type 0 where
  pub graph_version : Option String
  pub task_id : ℕ
  pub run_id : ℕ
  pub provider : String
  pub model : String
  pub max_steps : ℕ
  pub context_ready : Bool
  pub agent_status : RunStatus
  pub final_answer : Option String
  pub stop_reason : Option String
  pub evaluation_errors : List String
  pub workflow_status : String
  pub node_history : List String

pub data Node : Type 0 where
  load_context run_agent evaluate_result complete_workflow block_workflow : Node

-- The state and the nodes that come next.
pub record Snapshot : Type 0 where
  pub values : AgentWorkflowState
  pub next : List Node

abbrev pub status_text : RunStatus → String
status_text RunStatus.running = "running"
status_text RunStatus.completed = "completed"
status_text RunStatus.max_steps = "max_steps"
status_text RunStatus.failed = "failed"
status_text RunStatus.needs_review = "needs_review"

abbrev pub is_completed : RunStatus → Bool
is_completed RunStatus.completed = true
is_completed _ = false

-- `not value` of an optional text
abbrev pub is_falsy : Option String → Bool
is_falsy none = true
is_falsy (some s) = s == ""

abbrev visited : (node status : String) → AgentWorkflowState → AgentWorkflowState
visited node status w = record w {
  workflow_status = status;
  node_history = w.node_history ++ node ∷ [];
}

pub load_context_node : AgentWorkflowState → AgentWorkflowState
load_context_node w = visited "load_context" "context_loaded" (record w { context_ready = true })

-- What `run_agent` reads of the run after the engine.
pub agent_finished : AgentRun → AgentWorkflowState → AgentWorkflowState
agent_finished run w = visited "run_agent" "agent_finished" (record w {
  agent_status = run.status;
  final_answer = run.final_answer;
  stop_reason = run.stop_reason;
})

pub evaluation_errors_of : AgentWorkflowState → List String
evaluation_errors_of w =
    (if not (is_completed w.agent_status)
      then concat "Agent stopped with status " (concat (status_text w.agent_status) ".") ∷ []
      else [])
    ++ (if is_falsy w.final_answer then "Agent did not return a final answer." ∷ [] else [])

abbrev pub is_clean : List String → Bool
is_clean [] = true
is_clean (x ∷ xs) = false

pub evaluate_result_node : AgentWorkflowState → AgentWorkflowState
unfolding evaluation_errors_of
evaluate_result_node w =
    let errors = evaluation_errors_of w in
    visited "evaluate_result" (if is_clean errors then "evaluation_passed" else "evaluation_failed")
      (record w { evaluation_errors = errors })

-- `route_after_evaluation`, and the node that it leads to.
pub route_after_evaluation : AgentWorkflowState → Node
route_after_evaluation w =
    if is_clean w.evaluation_errors then complete_workflow else block_workflow

pub last_node : Node → AgentWorkflowState → AgentWorkflowState
last_node complete_workflow w = visited "complete_workflow" "completed" w
last_node block_workflow w = visited "block_workflow" "blocked" w
last_node _ w = w

pub evaluate_and_end : AgentWorkflowState → AgentWorkflowState
unfolding evaluate_result_node route_after_evaluation last_node
evaluate_and_end w =
    let evaluated = evaluate_result_node w in last_node (route_after_evaluation evaluated) evaluated

-- The graph, its state and the store after it. `none` is a loop out of fuel.
abbrev pub Progress : Type 0
Progress = Option (Result AgentWorkflowState × Store)

pub after_agent : (run : Option AgentRun) → AgentWorkflowState → Store → Progress
unfolding agent_finished evaluate_and_end
after_agent none w s = some (value_error "agent run not found", s)
after_agent (some run) w s = some (ok (evaluate_and_end (agent_finished run w)), s)

pub agent_ran : AgentWorkflowState → Option Store → Progress
unfolding after_agent
agent_ran w none = none
agent_ran w (some s) = after_agent (get_run s w.run_id) w s

module _ (e : Engine) where
  -- The rest of the graph from a node on.
  unfoldable pub continue_from : Node → AgentWorkflowState → Store → Progress
  unfolding agent_ran run_engine evaluate_and_end load_context_node last_node
  continue_from load_context w s = agent_ran (load_context_node w) (run_engine e s w.run_id)
  continue_from run_agent w s = agent_ran w (run_engine e s w.run_id)
  continue_from evaluate_result w s = some (ok (evaluate_and_end w), s)
  continue_from complete_workflow w s = some (ok (last_node complete_workflow w), s)
  continue_from block_workflow w s = some (ok (last_node block_workflow w), s)

  pub first_state : AgentRun → (task_id : ℕ) → AgentWorkflowState
  first_state run task_id = record {
    graph_version = some agent_workflow_version;
    task_id = task_id;
    run_id = run.id;
    provider = e.model.provider;
    model = e.model.model;
    max_steps = run.max_steps;
    context_ready = false;
    agent_status = RunStatus.running;
    final_answer = none;
    stop_reason = none;
    evaluation_errors = [];
    workflow_status = "started";
    node_history = [];
  }

  -- `_invoke_agent_workflow`
  unfoldable pub invoke_agent_workflow : AgentRun → (task_id : ℕ) → Store → Progress
  unfolding continue_from first_state
  invoke_agent_workflow run task_id s = continue_from load_context (first_state run task_id) s

  abbrev as_run : Store → (run_id : ℕ) → Result AgentWorkflowState → Result AgentRun
  as_run s run_id (raised x) = raised x
  as_run s run_id (ok w) = elim (get_run s run_id) [
    | none ↦ value_error "agent run not found"
    | some run ↦ ok run
  ]

  pub read_run : (run_id : ℕ) → Progress → Option (Result AgentRun × Store)
  read_run run_id none = none
  read_run run_id (some (done, s)) = some (as_run s run_id done, s)

  pub execute_owned :
      (run_id : ℕ) (lease_owner : String)
      → Option AgentRun
      → Store
      → Option (Result AgentRun × Store)
  unfolding invoke_agent_workflow read_run
  execute_owned run_id lease_owner none s = some (value_error "agent run not found", s)
  execute_owned run_id lease_owner (some run) s =
      let invoked = read_run run_id (invoke_agent_workflow run run.task_id s) in
      if not (is_running run.status)
      then some (ok run, s)
      else if not (run.lease_owner == some lease_owner)
      then some (value_error "AgentRun execution lease is not owned by this worker", s)
      else if is_none (get_task s run.task_id)
      then some (value_error "AgentRun task no longer exists", s)
      else invoked

  -- `execute_agent_workflow_run`, with the engine of the run's model.
  unfoldable pub execute_agent_workflow_run :
      (run_id : ℕ) (lease_owner : String) → Store → Option (Result AgentRun × Store)
  unfolding execute_owned
  execute_agent_workflow_run run_id lease_owner s =
      execute_owned run_id lease_owner (get_run s run_id) s
