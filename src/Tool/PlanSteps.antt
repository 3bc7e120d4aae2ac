-- ===== src/Tool/PlanSteps.antt =====
-- app/services/tools.py: `update_plan_step`, the registered tool that writes.
pub mod Examples
pub mod Owned
use careerops_agent.Shared.{
  ℕ, String, Option, none, some, List, first, update_where, if◌then◌else◌, ◌==◌, Eq_nat,
}
use careerops_agent.Tool.Rows.{
  Json, null, num, str, obj, end, field, Permission, Effect, IdempotencyMode, RepeatPolicy,
  AgentTask, PlanStep,
}
use careerops_agent.Tool.Registry.{
  Validation, HandlerResult, output, value_error, ToolHandler, ToolDefinition,
}

pub record UpdatePlanStepArguments : Type 0 where
  pub plan_step_id : ℕ
  pub status : String
  pub result_summary : Option String

abbrev summary_json : Option String → Json
summary_json none = null
summary_json (some s) = str s

-- The two assignments.
abbrev pub changed : UpdatePlanStepArguments → PlanStep → PlanStep
changed args step = record step { status = args.status; result_summary = args.result_summary }

abbrev pub step_json : PlanStep → Json
step_json step = obj (
    field "plan_step"
      (obj (
        field "id" (num step.id) (
          field "sequence" (num step.sequence) (
            field "status" (str step.status)
              (field "result_summary" (summary_json step.result_summary) end)))))
      end)

pub update_found :
    Option PlanStep
    → AgentTask
    → UpdatePlanStepArguments
    → List PlanStep
    → HandlerResult × List PlanStep
update_found none task args steps = (value_error "plan step does not belong to this task", steps)
update_found (some step) task args steps =
    if step.task_id == task.id
    then (
      output (step_json (changed args step)),
      update_where (λ s. s.id == args.plan_step_id) (changed args) steps,
    )
    else (value_error "plan step does not belong to this task", steps)

pub update_plan_step :
    AgentTask → UpdatePlanStepArguments → List PlanStep → HandlerResult × List PlanStep
unfolding update_found
update_plan_step task args steps =
    update_found (first (λ s. s.id == args.plan_step_id) steps) task args steps

-- The entry of the registry. The schema library checks arguments, once for `execute_tool` and once
-- more in the handler.
pub update_plan_step_tool :
    (validate : Json → Validation) (parse : Json → UpdatePlanStepArguments) → ToolDefinition
unfolding update_plan_step
update_plan_step_tool validate parse = record {
  name = "update_plan_step";
  permission = Permission.write;
  effect = Effect.internal_write;
  idempotency_mode = IdempotencyMode.operation_key;
  repeat_policy = RepeatPolicy.naturally_idempotent;
  validate = validate;
  handler = λ task args steps world.
      (let (result, after) = update_plan_step task (parse args) steps in (result, after, world));
  reconciler = none;
}
