-- ===== src/Memory/Promotion.antt =====
-- app/services/memory_evaluator.py: working memories that become facts when a run completes.
use Prim.Native.String.{◌++◌ as concat}
use mathlib.Core.List.{reverse}
use careerops_agent.Shared.{
  ℕ, String, Bool, true, false, not, ◌&&◌, Option, none, some, List, [], ◌∷◌, first, last, keep,
  map, if◌then◌else◌, ◌==◌, Eq_nat, Eq_text, Eq_option,
}
use careerops_agent.Shared.Text.{decimal}
use careerops_agent.Tool.Rows.{Json, null, num, end, field}
use careerops_agent.Context.Json.{get}
use careerops_agent.Context.Task.{PlannedTask}
use careerops_agent.Run.Rows.{AgentRun, RunStep}
use careerops_agent.Memory.Rows.{
  fact, MemoryScope, is_working, is_retired, AgentMemory, AgentMemoryRevision, MemoryDb,
}
use careerops_agent.Memory.Candidate.{
  MemoryCandidate, Evidence, tool_call_of, is_num, is_str, skill_demand_summary, promotion_policy,
  working_key, tool_provenance, build_run_outcome_candidate,
}

abbrev observed : RunStep → Json
observed step = elim step.observation [ none ↦ null | some o ↦ o ]

-- The working memory of the run, and what its latest revision says of where it came from.
find_working : MemoryDb → PlannedTask → AgentRun → Option AgentMemory
find_working db task run =
    first
      (λ m.
        m.goal_contract_id == task.goal_contract_id
        && is_working m.memory_type
        && m.run_id == some run.id
        && m.memory_key == working_key run.id
        && not (is_retired m.status))
      db.memories

abbrev given : Option AgentMemoryRevision → Json
given none = null
given (some r) = elim r.provenance [ none ↦ null | some p ↦ p ]

latest_provenance : MemoryDb → AgentMemory → Json
latest_provenance db working_memory =
    given (last (keep (λ r. r.memory_id == working_memory.id) db.revisions))

abbrev agrees : Json → Option ℕ → Bool
agrees null none = true
agrees v none = false
agrees v (some n) = is_num v n

is_expected : (run_id task_id step_id : ℕ) → (tool_call_id : Option ℕ) → Json → Bool
unfolding get
is_expected run_id task_id step_id tool_call_id p =
    is_num (get "agent_run_id" p) run_id
    && is_num (get "task_id" p) task_id
    && is_num (get "agent_run_step_id" p) step_id
    && agrees (get "tool_call_id" p) tool_call_id
    && is_str (get "tool_name" p) "get_skill_demand"
    && is_str (get "promotion_policy" p) promotion_policy

-- The body of the loop of `build_skill_demand_candidate`: `none` is `continue`.
fact_from :
    MemoryDb
    → PlannedTask
    → AgentRun
    → RunStep
    → Option ℕ
    → Option (String × String)
    → Option AgentMemory
    → Option MemoryCandidate
unfolding is_expected latest_provenance
fact_from db task run step call none found = none
fact_from db task run step call (some summary) none = none
fact_from db task run step call (some (content, evidence)) (some memory) =
    if is_expected run.id task.id step.id call (latest_provenance db memory)
    then some (record {
      memory_type = fact;
      scope_type = MemoryScope.task;
      task_id = some task.id;
      run_id = none;
      memory_key = concat "task:" (concat (decimal task.id) ":skill-demand");
      content = content;
      source = "tool:get_skill_demand";
      importance = 4;
      relevance_text = evidence;
      provenance =
          tool_provenance run.id task.id step.id call
            (field "promoted_from_working_memory_id" (num memory.id) end);
    })
    else none

from_step : MemoryDb → Evidence → PlannedTask → AgentRun → RunStep → Option MemoryCandidate
unfolding fact_from find_working get tool_call_of skill_demand_summary
from_step db seen task run step =
    if not (step.model_response.tool_name == some "get_skill_demand")
    then none
    else if not (is_str (get "status" (observed step)) "succeeded")
    then none
    else fact_from db task run step (tool_call_of seen.links step.id)
        (skill_demand_summary (observed step)) (find_working db task run)

first_of : List (Option MemoryCandidate) → Option MemoryCandidate
first_of [] = none
first_of (none ∷ rest) = first_of rest
first_of (some c ∷ rest) = some c

unfoldable pub build_skill_demand_candidate :
    MemoryDb → Evidence → PlannedTask → AgentRun → Option MemoryCandidate
unfolding from_step first_of
build_skill_demand_candidate db seen task run =
    first_of
      (map (from_step db seen task run) (reverse (keep (λ s. s.run_id == run.id) seen.steps)))

abbrev and_maybe : MemoryCandidate → Option MemoryCandidate → List MemoryCandidate
and_maybe c none = c ∷ []
and_maybe c (some d) = c ∷ d ∷ []

unfoldable pub build_run_memory_candidates :
    MemoryDb → Evidence → PlannedTask → AgentRun → (answer : String) → List MemoryCandidate
unfolding build_run_outcome_candidate build_skill_demand_candidate
build_run_memory_candidates db seen task run answer =
    and_maybe (build_run_outcome_candidate task run answer)
      (build_skill_demand_candidate db seen task run)
