-- ===== src/Tool/Samples.antt =====
-- Tools, tasks and rows on which the theorems are tried.
use careerops_agent.Shared.{String, true, none, some, List, [], ◌∷◌}
use careerops_agent.Tool.Rows.{
  null, Permission, write, Effect, internal_write, external_write, IdempotencyMode, no_key,
  operation_key, RepeatPolicy, always_allow, business_unique, executing, not_found, AgentTask,
  ToolCallRecord, TaskPolicy, ToolApproval, Db,
}
use careerops_agent.Tool.Registry.{
  valid, output, uncertain, value_error, answered, ToolHandler, ToolDefinition, Registry,
}
use careerops_agent.Tool.Execution.{Platform}

abbrev sample_tool :
    String → Permission → Effect → IdempotencyMode → RepeatPolicy → ToolHandler → ToolDefinition
sample_tool name permission effect mode policy handler = record {
  name = name;
  permission = permission;
  effect = effect;
  idempotency_mode = mode;
  repeat_policy = policy;
  validate = λ args. valid args;
  handler = handler;
  reconciler = some (λ task op world.
      (answered (record { status = not_found; output = none; detail = none }), world));
}

abbrev pub look : ToolDefinition
look =
    sample_tool "look" Permission.read Effect.read no_key always_allow
      (λ task args rows world. (output null, rows, world))

abbrev pub note : ToolDefinition
note =
    sample_tool "note" write internal_write operation_key business_unique
      (λ task args rows world. (value_error "no such step", [], world))

abbrev pub apply : ToolDefinition
apply =
    sample_tool "apply" write external_write operation_key business_unique
      (λ task args rows world. (uncertain "op-7" "timeout", [], world))

abbrev pub tools : Registry
tools = look ∷ note ∷ apply ∷ []

abbrev pub host : Platform
host = record {
  registry = tools;
  digest = λ name args step. name;
  uuid_hex = λ n. "0f";
  on_file = true;
}

abbrev pub job_hunt : AgentTask
job_hunt = record { id = 4; goal_contract_id = 1 }

abbrev pub applying : ToolCallRecord
applying = record {
  id = 1;
  task_id = 4;
  plan_step_id = none;
  trace_id = none;
  tool_name = "apply";
  permission = write;
  effect = external_write;
  idempotency_mode = operation_key;
  repeat_policy = business_unique;
  idempotency_key = "k";
  request_fingerprint = "apply";
  arguments_json = null;
  status = executing;
  attempt_count = 1;
  replay_count = 0;
  output_json = none;
  error = none;
  provider_operation_id = some "op-7";
  reconciliation_status = none;
  reconciled_at = none;
  updated_at = 10;
  started_at = some 10;
  completed_at = none;
}

-- The task may use `apply`, with approval.
abbrev pub open_policy : TaskPolicy
open_policy = record {
  id = 1;
  task_id = 4;
  version = 3;
  allowed_tools = "apply" ∷ "look" ∷ [];
  external_writes_require_approval = true;
}

abbrev pub consent : ToolApproval
consent = record {
  id = 1;
  task_id = 4;
  tool_call_id = 1;
  active_slot = some 1;
  actor_id = "ada";
  tool_name = "apply";
  idempotency_key = "k";
  request_fingerprint = "apply";
  expires_at = 60;
  consumed_at = none;
  revoked_at = none;
}

abbrev pub database : List ToolCallRecord → List ToolApproval → Db
database calls approvals = record {
  outside = record { clock = 20; provider = [] };
  uuids = 0;
  plan_steps = [];
  run_steps = [];
  policies = open_policy ∷ [];
  tool_calls = calls;
  authorizations = [];
  approvals = approvals;
  fixtures = [];
  traces = [];
}
