-- ===== src/Tool/Registry/Effects.antt =====
-- What one run of a tool can change.
use careerops_agent.Shared.{
  String, ◌≡◌, ◌≢◌, refl, Option, none, some, List, arith, any, Bool-cases, inl, inr,
}
use careerops_agent.Tool.Rows.{
  Json, Permission, external_write, ExecutionStatus, success, AgentTask, PlanStep, Outside,
}
use careerops_agent.Tool.Tests.{permission_eq}
use careerops_agent.Tool.Registry.{
  ToolDefinition, HandlerResult, uncertain, value_error, other_error, Validation, valid, invalid,
  execute_found, Registry, Run, get_tool, finish, attempt, execute_tool,
}

-- A handler that raises leaves the rows as they were before it.
finish_rollback :
    (d : ToolDefinition) (name : String) (args : Json) (before : List PlanStep)
    (ended : HandlerResult × List PlanStep × Outside)
    → (finish d name args before ended).0.status ≢ success
    → (finish d name args before ended).1 ≡ before
unfolding finish
finish_rollback d name args before (result, after, world) h = ground arith

attempt_rollback :
    (d : ToolDefinition) (name : String) (args : Json) (v : Validation) (task : AgentTask)
    (rows : List PlanStep) (world : Outside)
    → (attempt d name args v task rows world).0.status ≢ success
    → (attempt d name args v task rows world).1 ≡ rows
unfolding attempt
attempt_rollback d name args (invalid m) task rows world h = refl
attempt_rollback d name args (valid checked) task rows world h =
    finish_rollback d name checked rows (d.handler task checked rows world) h

found_rollback :
    (found : Option ToolDefinition) (task : AgentTask) (name : String) (args : Json)
    (granted : List Permission) (rows : List PlanStep) (world : Outside)
    → (execute_found found task name args granted rows world).0.status ≢ success
    → (execute_found found task name args granted rows world).1 ≡ rows
unfolding execute_found
found_rollback none task name args granted rows world h = refl
found_rollback (some d) task name args granted rows world h =
    elim (Bool-cases (any (permission_eq d.permission) granted)) [
      | inl ok ↦ rw ok (attempt_rollback d name args (d.validate args) task rows world (rw ok at h))
      | inr no_permission ↦ rw no_permission
    ]

-- The handler of a registered tool raised that its outcome is unknown, for checked arguments, and
-- the run names the operation that it raised it for.
abbrev pub NamesOperation :
    ToolDefinition → (args : Json) → AgentTask → List PlanStep → Outside → Option String → Type 0
NamesOperation d args task rows world named =
    (checked : Json) × (op : String) × (message : String) × (d.validate args ≡ valid checked)
    × ((d.handler task checked rows world).0 ≡ uncertain op message)
    × (named ≡ some op)

finish_uncertain :
    (d : ToolDefinition) (name : String) (args : Json) (before : List PlanStep)
    (ended : HandlerResult × List PlanStep × Outside)
    → (finish d name args before ended).0.status ≡ ExecutionStatus.outcome_unknown
    → (d.effect ≡ external_write)
      × ((op : String) × (message : String) × (ended.0 ≡ uncertain op message)
          × ((finish d name args before ended).0.provider_operation_id ≡ some op))
unfolding finish
finish_uncertain d name args before (HandlerResult.output o, after, world) h = cc
finish_uncertain d name args before (uncertain op m, after, world) h =
    (ground arith, (op, m, refl, ground arith))
finish_uncertain d name args before (value_error m, after, world) h = cc
finish_uncertain d name args before (other_error e, after, world) h = cc

attempt_uncertain :
    (d : ToolDefinition) (name : String) (args : Json) (v : Validation) (task : AgentTask)
    (rows : List PlanStep) (world : Outside)
    → d.validate args ≡ v
    → (attempt d name args v task rows world).0.status ≡ ExecutionStatus.outcome_unknown
    → (d.effect ≡ external_write)
      × NamesOperation d args task rows world
          (attempt d name args v task rows world).0.provider_operation_id
unfolding attempt
attempt_uncertain d name args (invalid m) task rows world e h = cc
attempt_uncertain d name args (valid checked) task rows world e h =
    let (external, (op, m, raised, named)) =
      finish_uncertain d name checked rows (d.handler task checked rows world) h in
    (external, (checked, op, m, e, raised, named))

found_uncertain :
    (found : Option ToolDefinition) (task : AgentTask) (name : String) (args : Json)
    (granted : List Permission) (rows : List PlanStep) (world : Outside)
    → (execute_found found task name args granted rows world).0.status
      ≡ ExecutionStatus.outcome_unknown
    → (d : ToolDefinition) × (found ≡ some d)
      × (d.effect ≡ external_write)
      × NamesOperation d args task rows world
          (execute_found found task name args granted rows world).0.provider_operation_id
unfolding execute_found
found_uncertain none task name args granted rows world h = cc
found_uncertain (some d) task name args granted rows world h =
    elim (Bool-cases (any (permission_eq d.permission) granted)) [
      | inl ok ↦
          let (external, operation) =
            attempt_uncertain d name args (d.validate args) task rows world refl (rw ok at h) in
          (d, refl, external, rw ok operation)
      | inr no_permission ↦ cc (rw no_permission at h)
    ]

module _ (registry : Registry) (task : AgentTask) (name : String) (args : Json)
    (granted : List Permission) (rows : List PlanStep) (world : Outside) where
  abbrev executed : Run
  executed = execute_tool registry task name args granted rows world

  -- A run that does not succeed leaves the rows of the database as they were.
  pub execute_tool_rollback : executed.0.status ≢ success → executed.1 ≡ rows
  unfolding execute_tool
  execute_tool_rollback = found_rollback (get_tool registry name) task name args granted rows world

  -- Only a registered external-write tool can leave its outcome unknown: its handler raised so for
  -- the checked arguments, and the run names the provider's operation that it raised it for.
  pub execute_tool_uncertain :
      executed.0.status ≡ ExecutionStatus.outcome_unknown
      → (d : ToolDefinition) × (get_tool registry name ≡ some d)
        × (d.effect ≡ external_write)
        × NamesOperation d args task rows world executed.0.provider_operation_id
  unfolding execute_tool
  execute_tool_uncertain =
      found_uncertain (get_tool registry name) task name args granted rows world
