-- ===== src/Loop/Store.antt =====
-- app/services/agent_loop.py: what the loop reads and writes, and what it is given.
use careerops_agent.Shared.{
  ℕ, String, ◌||◌, ltb, leb, Option, none, some, List, first, keep, update_where, if◌then◌else◌,
  ◌==◌, Eq_nat,
}
use careerops_agent.Tool.Rows.{Json, Db, AgentTask, Message}
use careerops_agent.Tool.Registry.{ToolDefinition, Registry}
use careerops_agent.Tool.Runtime.{ToolCallOutcome}
use careerops_agent.Context.Task.{PlannedTask, MemoryContext}
use careerops_agent.Context.Compaction.{Library}
use careerops_agent.Memory.Rows.{MemoryDb}
use careerops_agent.Memory.Candidate.{TraceRow, Evidence}
use careerops_agent.Memory.Rules.{TextLibrary}
use careerops_agent.Run.Rows.{AgentRun, RunStep, TraceEntry}
use careerops_agent.Loop.Model.{AgentModel, Result, ok, value_error}

-- The tables. `inputs` are the traces that the candidates' rules read.
pub record Store : Type 0 where
  pub db : Db
  pub tasks : List PlannedTask
  pub runs : List AgentRun
  pub steps : List RunStep
  pub memory : MemoryDb
  pub inputs : List TraceRow
  pub entries : List TraceEntry

abbrev pub get_run : Store → (run_id : ℕ) → Option AgentRun
get_run s run_id = first (λ r. r.id == run_id) s.runs

abbrev pub get_step : Store → (step_id : ℕ) → Option RunStep
get_step s step_id = first (λ t. t.id == step_id) s.steps

-- `run.steps`, in the order of their sequence, which is that of the table.
abbrev pub steps_in : Store → (run_id : ℕ) → List RunStep
steps_in s run_id = keep (λ t. t.run_id == run_id) s.steps

-- A task with its plan.
abbrev with_plan : Db → Option PlannedTask → Option PlannedTask
with_plan db none = none
with_plan db (some t) = some (record t { plan_steps = keep (λ p. p.task_id == t.id) db.plan_steps })

abbrev pub get_task : Store → (task_id : ℕ) → Option PlannedTask
get_task s task_id = with_plan s.db (first (λ t. t.id == task_id) s.tasks)

abbrev pub task_row : PlannedTask → AgentTask
task_row t = record { id = t.id; goal_contract_id = t.goal_contract_id }

-- Writes a run back.
abbrev pub put_run : AgentRun → Store → Store
put_run r s = record s { runs = update_where (λ r'. r'.id == r.id) (λ _. r) s.runs }

abbrev pub evidence : Store → Evidence
evidence s = record {
  runs = s.runs;
  steps = s.steps;
  links = s.db.run_steps;
  tool_calls = s.db.tool_calls;
  traces = s.inputs;
}

-- What the engine is given. `run_tool` is the `tool_runner`, for a step's id; `assemble_memory` is
-- the memory runtime; `describe` gives the description and the schema of the arguments of a tool;
-- the texts of messages and of times are those that the database keeps and `isoformat` prints.
pub record Engine : Type 0 where
  pub model : AgentModel
  pub library : Library
  pub texts : TextLibrary
  pub registry : Registry
  pub describe : ToolDefinition → String × Json
  pub uuid_hex : ℕ → String
  pub message_text : Message → String
  pub isoformat : ℕ → String
  pub run_tool :
      AgentTask
      → (tool_name : String) → Json
      → (key : String) (step_id : ℕ) → Db
      → ToolCallOutcome × Db
  pub assemble_memory : Store → PlannedTask → (run_id token_budget : ℕ) → Result MemoryContext
  pub model_context_tokens : ℕ
  pub reserved_output_tokens : ℕ
  pub memory_token_budget : ℕ

-- `AgentLoopEngine.__init__`: the limits that it takes. A budget is never negative here.
unfoldable pub new_engine : Engine → Result Engine
new_engine e =
    if ltb e.model_context_tokens 1
    then value_error "model_context_tokens must be positive"
    else if ltb e.reserved_output_tokens 1 || leb e.model_context_tokens e.reserved_output_tokens
    then value_error "reserved_output_tokens must be positive and smaller than model_context_tokens"
    else ok e
