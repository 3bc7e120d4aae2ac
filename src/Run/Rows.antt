-- ===== src/Run/Rows.antt =====
-- The rows of app/models.py for agent runs, and the decisions of app/services/agent_loop.py that a
-- step keeps.
use careerops_agent.Shared.{ℕ, String, Bool, true, false, Option, List}
use careerops_agent.Tool.Rows.{Json}
use careerops_agent.Context.Budget.{ContextTokenBudget}
use careerops_agent.Context.Task.{MemoryContext}
use careerops_agent.Context.Agent.{ContextCompactionResult}

-- `AgentRunStatus`
pub data RunStatus : Type 0 where
  running completed max_steps failed needs_review : RunStatus

abbrev pub is_running : RunStatus → Bool
is_running RunStatus.running = true
is_running _ = false

-- What a model answers. `provider_metadata` is a dictionary or `null`.
pub record AgentDecision : Type 0 where
  pub action_type : String
  pub content : Option String
  pub tool_name : Option String
  pub arguments : Option Json
  pub call_id : Option String
  pub provider_metadata : Json

-- `tools` holds the public schemas. The execution context and the audit of the retrieval are parts
-- of the compaction and of the memory context.
pub record AgentModelRequest : Type 0 where
  pub task_id : ℕ
  pub user_goal : String
  pub constraints : List String
  pub success_criteria : List String
  pub memory_context : MemoryContext
  pub observations : List Json
  pub tools : List Json
  pub step_number : ℕ
  pub max_steps : ℕ
  pub execution_context : Json
  pub context_compaction : ContextCompactionResult
  pub context_token_budget : ContextTokenBudget

-- The column `tool_call_id` stands in the table `run_steps` of the tool runtime's `Db`, and timings
-- are left out.
pub record RunStep : Type 0 where
  pub id : ℕ
  pub run_id : ℕ
  pub task_id : ℕ
  pub sequence : ℕ
  pub action_type : String
  pub model_request : AgentModelRequest
  pub model_response : AgentDecision
  pub observation : Option Json
  pub created_at : ℕ

pub record AgentRun : Type 0 where
  pub id : ℕ
  pub task_id : ℕ
  pub provider : String
  pub model : String
  pub status : RunStatus
  pub max_steps : ℕ
  pub step_count : ℕ
  pub final_answer : Option String
  pub stop_reason : Option String
  pub error : Option String
  pub lease_owner : Option String
  pub lease_expires_at : Option ℕ
  pub lease_heartbeat_at : Option ℕ
  pub started_at : ℕ
  pub completed_at : Option ℕ

-- An `ExecutionTrace` that the loop or the memories' upkeep writes. Its primary key, which it shares
-- with the traces of the tool runtime, and its metadata are left out.
pub record TraceEntry : Type 0 where
  pub task_id : ℕ
  pub event_type : String
  pub status : String
  pub input_summary : String
  pub output_summary : String
