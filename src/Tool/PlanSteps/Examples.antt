-- ===== src/Tool/PlanSteps/Examples.antt =====
-- A step of the task, and a step of another one.
use careerops_agent.Shared.{ℕ, ◌≡◌, some, none, List, [], ◌∷◌, keep, arith}
use careerops_agent.Tool.Rows.{PlanStep}
use careerops_agent.Tool.PlanSteps.{UpdatePlanStepArguments, update_plan_step}
use careerops_agent.Tool.PlanSteps.Owned.{foreign, update_plan_step_twice, update_plan_step-foreign}
use careerops_agent.Tool.Samples.{job_hunt}

abbrev sample_step : ℕ → ℕ → PlanStep
sample_step i task = record {
  id = i;
  task_id = task;
  sequence = 1;
  title = "read";
  status = "pending";
  agent_capability = "memory";
  success_criterion = "done";
  goal_connection = "it is needed";
  learning_outcome = "how it works";
  result_summary = none;
}

abbrev finished : UpdatePlanStepArguments
finished = record { plan_step_id = 7; status = "completed"; result_summary = some "read it" }

abbrev steps : List PlanStep
steps = sample_step 6 5 ∷ sample_step 7 4 ∷ []

update_plan_step_twice_example :
    let (result, after) = update_plan_step job_hunt finished steps in
    update_plan_step job_hunt finished after ≡ (result, after)
update_plan_step_twice_example = update_plan_step_twice job_hunt finished steps

update_plan_step-foreign_example :
    keep (foreign job_hunt) (update_plan_step job_hunt finished steps).1
    ≡ keep (foreign job_hunt) steps
update_plan_step-foreign_example =
    update_plan_step-foreign job_hunt finished steps (((λ e. ground arith), tt), (tt, tt))
