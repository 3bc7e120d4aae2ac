-- ===== src/Memory/Candidate.antt =====
-- app/services/memory_evaluator.py: candidates for memory, built from runs and their tool results.
use Prim.Native.String.{◌++◌ as concat}
use careerops_agent.Shared.{
  ℕ, String, Bool, false, not, ◌||◌, Option, none, some, List, [], ◌∷◌, first, take, map,
  if◌then◌else◌, ◌==◌, Eq_nat, Eq_text, Eq_option,
}
use careerops_agent.Shared.Text.{strip, squeeze, decimal, join}
use careerops_agent.Tool.Rows.{
  Json, null, num, str, arr, obj, Items, nil, cons, Fields, end, field, ToolCallRecord,
  AgentRunStep,
}
use careerops_agent.Context.Json.{get}
use careerops_agent.Context.Task.{PlannedTask}
use careerops_agent.Run.Rows.{AgentRun, RunStep}
use careerops_agent.Memory.Rows.{MemoryType, working, episodic, MemoryScope}

pub record MemoryCandidate : Type 0 where
  pub memory_type : MemoryType
  pub scope_type : MemoryScope
  pub task_id : Option ℕ
  pub run_id : Option ℕ
  pub memory_key : String
  pub content : String
  pub source : String
  pub importance : ℕ
  pub relevance_text : String
  pub provenance : Json

-- The columns of an execution trace that the rules read.
pub record TraceRow : Type 0 where
  pub id : ℕ
  pub task_id : ℕ
  pub event_type : String
  pub input_summary : String

-- The tables that the rules read.
pub record Evidence : Type 0 where
  pub runs : List AgentRun
  pub steps : List RunStep
  pub links : List AgentRunStep
  pub tool_calls : List ToolCallRecord
  pub traces : List TraceRow

-- `step.tool_call_id`
abbrev pub link_of : Option AgentRunStep → Option ℕ
link_of none = none
link_of (some link) = link.tool_call_id

unfoldable pub tool_call_of : List AgentRunStep → (step_id : ℕ) → Option ℕ
tool_call_of links step_id = link_of (first (λ l. l.id == step_id) links)

-- Comparisons of a JSON value with a number and with a text.
abbrev pub is_num : Json → ℕ → Bool
is_num (num m) n = m == n
is_num _ n = false

abbrev pub is_str : Json → String → Bool
is_str (str s) t = s == t
is_str _ t = false

abbrev pub opt_num : Option ℕ → Json
opt_num none = null
opt_num (some n) = num n

unfoldable pub build_run_outcome_candidate :
    PlannedTask → AgentRun → (answer : String) → MemoryCandidate
build_run_outcome_candidate task run answer =
    let normalized_answer = strip (squeeze answer) in
    record {
      memory_type = episodic;
      scope_type = MemoryScope.task;
      task_id = some task.id;
      run_id = none;
      memory_key = concat "agent-run:" (concat (decimal run.id) ":outcome");
      content = concat "Outcome for task '" (concat task.title (concat "': " normalized_answer));
      source = "agent_runtime";
      importance = 3;
      relevance_text = normalized_answer;
      provenance = obj (
          field "agent_run_id" (num run.id) (
            field "task_id" (num task.id)
              (field "provider" (str run.provider) (field "model" (str run.model) end))));
    }

-- `value.get(key, default)` in an f-string: the texts of numbers and of texts. Counts and names are
-- nothing else in the results of `get_skill_demand`.
abbrev shown_or : (default : String) → Json → String
shown_or default (num n) = decimal n
shown_or default (str s) = s
shown_or default _ = default

skill_entry : Json → String
unfolding get
skill_entry skill = concat (shown_or "unknown" (get "name" skill)) (
    concat " (" (
      concat (shown_or "0" (get "job_count" skill)) (
        concat " jobs, " (concat (shown_or "0" (get "requirement_count" skill)) " requirements)"))))

unfoldable pub listed : Items → List Json
listed nil = []
listed (cons x xs) = x ∷ listed xs

abbrev skills_in : Json → List Json
skills_in (arr xs) = listed xs
skills_in _ = []

-- `_skill_demand_summary`: the content and the evidence.
summary_of : List Json → Option (String × String)
unfolding skill_entry join
summary_of [] = none
summary_of (s ∷ skills) =
    let evidence = join "; " (map skill_entry (take 5 (s ∷ skills))) in
    some (concat "Observed JD skill demand: " (concat evidence "."), evidence)

unfoldable pub skill_demand_summary : Json → Option (String × String)
unfolding get listed summary_of
skill_demand_summary observation = summary_of (skills_in (get "skills" (get "output" observation)))

abbrev pub promotion_policy : String
promotion_policy = "verified_skill_demand_fact_v1"

abbrev pub working_key : (run_id : ℕ) → String
working_key run_id = concat "agent-run:" (concat (decimal run_id) ":working:skill-demand")

abbrev pub tool_provenance :
    (run_id task_id step_id : ℕ) → (tool_call_id : Option ℕ) → Fields → Json
tool_provenance run_id task_id step_id tool_call_id more = obj (
    field "agent_run_id" (num run_id) (
      field "task_id" (num task_id) (
        field "agent_run_step_id" (num step_id) (
          field "tool_call_id" (opt_num tool_call_id) (
            field "tool_name" (str "get_skill_demand")
              (field "promotion_policy" (str promotion_policy) more))))))

working_from :
    PlannedTask → AgentRun → RunStep → Option ℕ → Option (String × String) → Option MemoryCandidate
working_from task run step tool_call_id none = none
working_from task run step tool_call_id (some (content, evidence)) = some (record {
  memory_type = working;
  scope_type = MemoryScope.run;
  task_id = none;
  run_id = some run.id;
  memory_key = working_key run.id;
  content = content;
  source = "tool:get_skill_demand";
  importance = 4;
  relevance_text = evidence;
  provenance = tool_provenance run.id task.id step.id tool_call_id end;
})

unfoldable pub build_tool_working_memory_candidate :
    PlannedTask
    → AgentRun
    → RunStep
    → (tool_call_id : Option ℕ) → (observation : Json) → Option MemoryCandidate
unfolding working_from get
build_tool_working_memory_candidate task run step none observation = none
build_tool_working_memory_candidate task run step (some call) observation =
    if not (is_str (get "status" observation) "succeeded")
      || not (step.model_response.tool_name == some "get_skill_demand")
    then none
    else working_from task run step (some call) (skill_demand_summary observation)
