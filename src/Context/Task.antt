-- ===== src/Context/Task.antt =====
-- app/services/context_compaction.py: the parts of a context that compaction never touches.
use careerops_agent.Shared.{
  ℕ, String, ◌||◌, Option, none, some, List, map, keep, first, ◌==◌, Eq_text,
}
use careerops_agent.Tool.Rows.{Json, null, num, str, obj, Fields, end, field, PlanStep}
use careerops_agent.Context.Json.{array}

-- The columns of an agent task, with its plan.
pub record PlannedTask : Type 0 where
  pub id : ℕ
  pub goal_contract_id : ℕ
  pub title : String
  pub user_goal : String
  pub constraints : List String
  pub success_criteria : List String
  pub plan_steps : List PlanStep

abbrev pub texts : List String → Json
texts xs = array (map str xs)

abbrev pub opt_text : Option String → Json
opt_text none = null
opt_text (some s) = str s

-- `_plan_step_snapshot`
pub plan_step_snapshot : PlanStep → Json
plan_step_snapshot s = obj (
    field "plan_step_id" (num s.id) (
      field "sequence" (num s.sequence) (
        field "title" (str s.title) (
          field "status" (str s.status) (
            field "success_criterion" (str s.success_criterion)
              (field "result_summary" (opt_text s.result_summary) end))))))

abbrev next_snapshot : Option PlanStep → Json
next_snapshot none = null
next_snapshot (some s) = plan_step_snapshot s

-- `_execution_context`, which `build_execution_context` calls.
unfoldable pub execution_context : PlannedTask → (run_id step_number max_steps : ℕ) → Json
unfolding plan_step_snapshot
execution_context task run_id step_number max_steps =
    let completed = keep (λ s. s.status == "completed") task.plan_steps in
    let blocked = keep (λ s. s.status == "blocked") task.plan_steps in
    let next = first (λ s. s.status == "in_progress" || s.status == "pending") task.plan_steps in
    obj (
      field "task_id" (num task.id) (
        field "run_id" (num run_id) (
          field "step_number" (num step_number) (
            field "max_steps" (num max_steps) (
              field "completed_actions" (array (map plan_step_snapshot completed)) (
                field "unresolved_blockers" (array (map plan_step_snapshot blocked))
                  (field "next_action" (next_snapshot next) end)))))))

-- The output of the memory runtime, which always has a goal contract.
pub record MemoryContext : Type 0 where
  pub goal_contract : Json
  pub others : Fields

-- The context with these observations.
unfoldable pub context_with :
    PlannedTask → (execution : Json) → MemoryContext → (observations : List Json) → Json
context_with task execution memory_context observations = obj (
    field "goal_contract" memory_context.goal_contract (
      field "task"
        (obj (
          field "id" (num task.id) (
            field "title" (str task.title) (
              field "user_goal" (str task.user_goal) (
                field "constraints" (texts task.constraints)
                  (field "success_criteria" (texts task.success_criteria) end))))))
        (field "execution_context" execution (
          field "memory_context"
            (obj (field "goal_contract" memory_context.goal_contract memory_context.others))
            (field "observations" (array observations) end)))))
