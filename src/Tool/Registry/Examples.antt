-- ===== src/Tool/Registry/Examples.antt =====
-- An internal write that fails, and an external write that times out.
use careerops_agent.Shared.{arith, ◌≡◌, refl, none, some, List, [], ◌∷◌}
use careerops_agent.Tool.Rows.{null, write, external_write, Outside, PlanStep}
use careerops_agent.Tool.Registry.{ToolDefinition, get_tool, execute_tool}
use careerops_agent.Tool.Registry.Effects.{
  NamesOperation, execute_tool_rollback, execute_tool_uncertain,
}
use careerops_agent.Tool.Samples.{tools, job_hunt}

abbrev outside : Outside
outside = record { clock = 20; provider = [] }

abbrev steps : List PlanStep
steps =
    record {
      id = 1;
      task_id = 4;
      sequence = 1;
      title = "read";
      status = "pending";
      agent_capability = "memory";
      success_criterion = "done";
      goal_connection = "it is needed";
      learning_outcome = "how it works";
      result_summary = none;
    }
    ∷ []

execute_tool_rollback_example :
    (execute_tool tools job_hunt "note" null (write ∷ []) steps outside).1 ≡ steps
unfolding execute_tool get_tool
execute_tool_rollback_example =
    execute_tool_rollback tools job_hunt "note" null (write ∷ []) steps outside (λ e. ground arith)

execute_tool_uncertain_example :
    (d : ToolDefinition) × (get_tool tools "apply" ≡ some d)
    × (d.effect ≡ external_write)
    × NamesOperation d null job_hunt steps outside
        (execute_tool tools job_hunt "apply" null
          (write ∷ [])
          steps
          outside).0.provider_operation_id
unfolding execute_tool get_tool
execute_tool_uncertain_example =
    execute_tool_uncertain tools job_hunt "apply" null (write ∷ []) steps outside refl
