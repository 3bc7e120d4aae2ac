-- ===== src/Tool/Registry.antt =====
-- app/services/tools.py: tool definitions, the registry and `execute_tool`.
pub mod Examples
pub mod Effects
use careerops_agent.Shared.{
  String, not, Option, none, some, List, first, any, if◌then◌else◌, ◌==◌, Eq_nat, Eq_text,
}
use careerops_agent.Tool.Rows.{
  Json, Permission, Effect, IdempotencyMode, RepeatPolicy, ExecutionStatus, success,
  ReconciliationStatus, Message, text, unknown_tool, permission_required, uncertain_not_external,
  execution_failed, AgentTask, PlanStep, Outside,
}
use careerops_agent.Tool.Tests.{is_external_write, permission_eq}

-- What `arguments_model.model_validate` answers: the validated arguments (`model_dump`), or the
-- message of the validation error.
pub data Validation : Type 0 where
  valid : Json → Validation
  invalid : String → Validation

-- How a handler ends: it returns, or raises `ExternalOperationUncertainError`, another
-- `ValueError`, or any other exception.
pub data HandlerResult : Type 0 where
  output : Json → HandlerResult
  uncertain : (provider_operation_id : String) (message : String) → HandlerResult
  value_error : (message : String) → HandlerResult
  other_error : (exception : String) → HandlerResult

pub record ReconciliationResult : Type 0 where
  pub status : ReconciliationStatus
  pub output : Option Json
  pub detail : Option String

-- What a reconciler does: it answers, answers with a value of another type, or raises.
pub data ReconcilerAnswer : Type 0 where
  answered : ReconciliationResult → ReconcilerAnswer
  malformed : ReconcilerAnswer
  raised : (exception : String) → ReconcilerAnswer

-- Handlers may change the plan steps and the world outside, in this program the only things that
-- handlers do change.
abbrev pub ToolHandler : Type 0
ToolHandler = AgentTask → Json → List PlanStep → Outside → HandlerResult × List PlanStep × Outside

abbrev pub ToolReconciler : Type 0
ToolReconciler = AgentTask → String → Outside → ReconcilerAnswer × Outside

pub record ToolDefinition : Type 0 where
  pub name : String
  pub permission : Permission
  pub effect : Effect
  pub idempotency_mode : IdempotencyMode
  pub repeat_policy : RepeatPolicy
  pub validate : Json → Validation
  pub handler : ToolHandler
  pub reconciler : Option ToolReconciler

abbrev pub Registry : Type 0
Registry = List ToolDefinition

unfoldable pub get_tool : Registry → String → Option ToolDefinition
get_tool registry name = first (λ d. d.name == name) registry

-- The time of the run is left out.
pub record ToolExecution : Type 0 where
  pub tool_name : String
  pub permission : Option Permission
  pub status : ExecutionStatus
  pub arguments : Json
  pub output : Option Json
  pub error : Option Message
  pub provider_operation_id : Option String

abbrev failure :
    String → Option Permission → ExecutionStatus → Json → Message → Option String → ToolExecution
failure name permission status arguments error operation = record {
  tool_name = name;
  permission = permission;
  status = status;
  arguments = arguments;
  output = none;
  error = some error;
  provider_operation_id = operation;
}

abbrev pub Run : Type 0
Run = ToolExecution × List PlanStep × Outside

-- The `except` clauses and the last `return`. `begin_nested` keeps the rows that the handler wrote
-- only if it returns; what it did outside stays.
finish :
    ToolDefinition → String → Json → List PlanStep → HandlerResult × List PlanStep × Outside → Run
finish d name args before (output out, after, world) = (
  record {
    tool_name = name;
    permission = some d.permission;
    status = success;
    arguments = args;
    output = some out;
    error = none;
    provider_operation_id = none;
  },
  after,
  world,
)
finish d name args before (uncertain operation message, after, world) = (
  if not (is_external_write d.effect)
      then failure name (some d.permission) ExecutionStatus.error args uncertain_not_external none
      else failure name (some d.permission) ExecutionStatus.outcome_unknown args (text message)
          (some operation),
  before,
  world,
)
finish d name args before (value_error message, after, world) =
    (failure name (some d.permission) ExecutionStatus.error args (text message) none, before, world)
finish d name args before (other_error exception, after, world) = (
  failure name (some d.permission) ExecutionStatus.error args (execution_failed exception) none,
  before,
  world,
)

attempt : ToolDefinition → String → Json → Validation → AgentTask → List PlanStep → Outside → Run
unfolding finish
attempt d name args (invalid message) task rows world =
    (failure name (some d.permission) ExecutionStatus.error args (text message) none, rows, world)
attempt d name args (valid checked) task rows world =
    finish d name checked rows (d.handler task checked rows world)

execute_found :
    Option ToolDefinition
    → AgentTask
    → String
    → Json
    → List Permission
    → List PlanStep
    → Outside
    → Run
unfolding attempt
execute_found none task name args granted rows world =
    (failure name none ExecutionStatus.error args unknown_tool none, rows, world)
execute_found (some d) task name args granted rows world =
    if not (any (permission_eq d.permission) granted)
    then (
      failure name (some d.permission) ExecutionStatus.denied args
          (permission_required d.permission) none,
      rows,
      world,
    )
    else attempt d name args (d.validate args) task rows world

unfoldable pub execute_tool :
    Registry → AgentTask → String → Json → List Permission → List PlanStep → Outside → Run
unfolding execute_found
execute_tool registry task name args granted rows world =
    execute_found (get_tool registry name) task name args granted rows world
