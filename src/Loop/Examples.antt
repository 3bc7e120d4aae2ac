-- ===== src/Loop/Examples.antt =====
-- A run of the demo policy, with tools that give nothing.
use careerops_agent.Shared.{ℕ, ◌+◌, ◌≤◌, ◌≡◌, refl, true, none, some, [], ◌∷◌, Option, arith}
use careerops_agent.Tool.Rows.{null, str, Db}
use careerops_agent.Tool.Runtime.{unknown_tool_error}
use careerops_agent.Tool.Samples.{tools, host}
use careerops_agent.Context.Budget.{
  ContextTokenBudget, estimate_tokens, measure_context_budget, sections_cost,
}
use careerops_agent.Context.Json.{array}
use careerops_agent.Context.Examples.{hunt, sevens, memory, seen}
use careerops_agent.Memory.Evaluation.Examples.{plain, hunting}
use careerops_agent.Run.Rows.{AgentRun, RunStatus, AgentModelRequest}
use careerops_agent.Loop.Model.{demo_agent_model, ok}
use careerops_agent.Loop.Store.{Store, Engine, get_run}
use careerops_agent.Loop.Has.{Ended}
use careerops_agent.Loop.Request.{memory_dict, Situation, measured_sections, fit_observations}
use careerops_agent.Loop.Request.Fits.{fit_observations_fits}
use careerops_agent.Loop.Engine.{run_engine}
use careerops_agent.Loop.Engine.Ends.{run_engine-Ended}
use careerops_agent.Loop.Workflow.{
  AgentWorkflowState, Snapshot, Progress, first_state, invoke_agent_workflow,
}
use careerops_agent.Loop.Workflow.Honest.{Answered, invoke_agent_workflow-completed}
use careerops_agent.Loop.Resume.Ends.{IsOwn, Settles}
use careerops_agent.Loop.Recovery.{recover_agent_run}
use careerops_agent.Loop.Recovery.Ends.{recover_agent_run-Settles}

abbrev engine : Engine
engine = record {
  model = demo_agent_model;
  library = sevens;
  texts = plain;
  registry = tools;
  describe = λ d. ("a tool", null);
  uuid_hex = λ n. "0f";
  message_text = λ m. "message";
  isoformat = λ t. "2026-01-01";
  run_tool = λ task name arguments key step db. (unknown_tool_error, db);
  assemble_memory = λ s task run_id budget. ok memory;
  model_context_tokens = 100;
  reserved_output_tokens = 10;
  memory_token_budget = 30;
}

abbrev started : AgentRun
started = record hunting { step_count = 0 }

abbrev empty_db : Db
empty_db = record {
  outside = record { clock = 7; provider = [] };
  uuids = 0;
  plan_steps = [];
  run_steps = [];
  policies = [];
  tool_calls = [];
  authorizations = [];
  approvals = [];
  fixtures = [];
  traces = [];
}

abbrev start : Store
start = record {
  db = empty_db;
  tasks = hunt ∷ [];
  runs = started ∷ [];
  steps = [];
  memory = record { memories = []; revisions = []; candidates = []; cleanups = [] };
  inputs = [];
  entries = [];
}

run_engine-Ended_example :
    (s' : Store) × (run_engine engine start 2 ≡ some s') × Ended 2 started.max_steps s'
run_engine-Ended_example = run_engine-Ended engine 2 started (omega arith) start refl

abbrev situation : Situation
situation = record {
  task = hunt;
  run = started;
  tools = [];
  prompt = str "prompt";
  observations = seen;
}

abbrev fixed : ContextTokenBudget
fixed = record {
  model_context_tokens = 100;
  reserved_output_tokens = 10;
  input_token_budget = 90;
  prompt_tokens = 7;
  memory_tokens = 7;
  tool_tokens = 0;
  observation_tokens = 0;
  estimated_input_tokens = 14;
  remaining_input_tokens = 76;
  within_budget = true;
  compaction_input_tokens = 0;
  compaction_output_tokens = 0;
}

fit_observations_fits_example :
    (request : AgentModelRequest) × (fit_observations engine situation memory fixed ≡ ok request)
    × (sections_cost sevens.count situation.prompt
            (memory_dict request.memory_context)
            (array request.tools)
            (array request.observations)
          + 10
        ≤ 100)
    × (request.context_token_budget.estimated_input_tokens + 10 ≤ 100)
    × (request.context_token_budget.observation_tokens
        ≡ estimate_tokens sevens.count (array request.observations))
    × (request.memory_context ≡ memory)
    × (request.tools ≡ [])
unfolding measured_sections measure_context_budget estimate_tokens
fit_observations_fits_example = fit_observations_fits engine situation memory fixed refl refl

abbrev outcome_of : Option Store → Option (RunStatus × ℕ)
outcome_of none = none
outcome_of (some s) = elim (get_run s 2) [ none ↦ none | some r ↦ some (r.status, r.step_count) ]

-- The demo policy calls two tools and then answers.
demo_completes : outcome_of (run_engine engine start 2) ≡ some (RunStatus.completed, 3)
unfolding run_engine demo_agent_model
demo_completes = refl

abbrev unsaved : AgentRun → Option Snapshot
unsaved run = none

unsaved-IsOwn : IsOwn unsaved
unsaved-IsOwn r snapshot h = cc

recover_agent_run-Settles_example : Settles 2 (
    recover_agent_run unsaved host
      (λ m. engine)
      (λ provider name. ok demo_agent_model)
      start
      hunt
      started)
recover_agent_run-Settles_example =
    recover_agent_run-Settles unsaved unsaved-IsOwn started (omega arith) host (λ m. engine)
      (λ provider name. ok demo_agent_model) start refl hunt

abbrev state_of : Progress → AgentWorkflowState
state_of (some (ok w, s)) = w
state_of _ = first_state engine started 4

abbrev store_of : Progress → Store
store_of (some (done, s)) = s
store_of none = start

abbrev invoked : Progress
invoked = invoke_agent_workflow engine started 4 start

workflow_ends : invoked ≡ some (ok (state_of invoked), store_of invoked)
unfolding invoke_agent_workflow demo_agent_model
workflow_ends = refl

workflow_completes : (state_of invoked).workflow_status ≡ "completed"
unfolding invoke_agent_workflow demo_agent_model
workflow_completes = refl

invoke_agent_workflow-completed_example : Answered 2 (store_of invoked)
invoke_agent_workflow-completed_example =
    invoke_agent_workflow-completed engine started 4 start (store_of invoked) (state_of invoked)
      workflow_ends workflow_completes
