-- ===== src/Context/Agent.antt =====
-- app/services/context_compaction.py: the context of one step of a run.
pub mod Sound
use careerops_agent.Shared.{
  ℕ, Bool, true, false, ◌||◌, Option, none, some, List, [], ◌∷◌, ◌++◌, map, length, leb,
  if◌then◌else◌, String, ◌==◌, Eq_text,
}
use careerops_agent.Tool.Rows.{Json, str}
use careerops_agent.Context.Json.{get, with_field, array, char_count}
use careerops_agent.Context.Budget.{estimate_tokens}
use careerops_agent.Context.Task.{PlannedTask, MemoryContext, execution_context, context_with}
use careerops_agent.Context.Compaction.{
  range_from, observation_at, Compacted, Library, compact_observations,
}

pub data RetainedItem : Type 0 where
  protected : (kind reason : String) → RetainedItem
  observation : (index : ℕ) → (reason : String) → RetainedItem

pub record RemovedItem : Type 0 where
  pub index : ℕ
  pub reason : String
  pub content : Json

pub record ContextCompactionResult : Type 0 where
  pub triggered : Bool
  pub trigger_reason : String
  pub raw_context : Json
  pub compacted_context : Json
  pub model_observations : List Json
  pub retained_items : List RetainedItem
  pub removed_items : List RemovedItem
  pub raw_char_count : ℕ
  pub compacted_char_count : ℕ
  pub raw_token_count : ℕ
  pub compacted_token_count : ℕ
  pub raw_observation_tokens : ℕ
  pub observation_token_budget : ℕ

-- `_protected_items`
abbrev protected_items : List RetainedItem
protected_items =
    protected "goal_contract" "protected_goal_contract"
    ∷ protected "task_goal" "protected_user_goal"
    ∷ protected "constraints" "protected_constraints"
    ∷ protected "success_criteria" "protected_success_criteria"
    ∷ protected "completed_actions" "protected_execution_state"
    ∷ protected "unresolved_blockers" "protected_execution_state"
    ∷ protected "identifiers" "protected_runtime_identifiers"
    ∷ protected "next_action" "protected_next_action"
    ∷ protected "memory_context" "bounded_memory_runtime_output"
    ∷ []

abbrev is_empty_list : List Json → Bool
is_empty_list [] = true
is_empty_list (o ∷ observations) = false

-- `compacted_observations and compacted_observations[0].get("kind") == ...`
has_summary : List Json → Bool
unfolding get
has_summary [] = false
has_summary (o ∷ observations) = elim (get "kind" o) [
  | str kind ↦ kind == "compacted_observation_summary"
  | _ ↦ false
]

module _ (lib : Library) where
  json_chars : Json → ℕ
  unfolding char_count
  json_chars value = char_count (lib.dumps value)

  -- The first return: the observations stand as they are.
  uncompacted :
      Json → (observations : List Json) → (observation_token_budget : ℕ) → ContextCompactionResult
  unfolding json_chars estimate_tokens range_from
  uncompacted raw_context observations observation_token_budget = record {
    triggered = false;
    trigger_reason =
        if is_empty_list observations then "no_observations" else "within_observation_token_budget";
    raw_context = raw_context;
    compacted_context = raw_context;
    model_observations = observations;
    retained_items =
        protected_items
        ++ map (λ i. observation i "within_observation_token_budget")
            (range_from 0 (length observations));
    removed_items = [];
    raw_char_count = json_chars raw_context;
    compacted_char_count = json_chars raw_context;
    raw_token_count = estimate_tokens lib.count raw_context;
    compacted_token_count = estimate_tokens lib.count raw_context;
    raw_observation_tokens = estimate_tokens lib.count (array observations);
    observation_token_budget = observation_token_budget;
  }

  -- The second return.
  compacted :
      (raw_context compacted_context : Json)
      → (observations : List Json) → (observation_token_budget : ℕ) → Compacted
      → ContextCompactionResult
  unfolding json_chars estimate_tokens has_summary
  compacted raw_context compacted_context observations observation_token_budget c = record {
    triggered = true;
    trigger_reason = "observation_token_budget_exceeded";
    raw_context = raw_context;
    compacted_context = compacted_context;
    model_observations = c.observations;
    retained_items = protected_items ++ map (λ i. observation i "recent_observation") c.retained;
    removed_items =
        map
          (λ i. record {
            index = i;
            reason =
                if has_summary c.observations
                then "summarized_old_observation"
                else "removed_to_fit_observation_budget";
            content = observation_at observations i;
          })
          c.removed;
    raw_char_count = json_chars raw_context;
    compacted_char_count = json_chars compacted_context;
    raw_token_count = estimate_tokens lib.count raw_context;
    compacted_token_count = estimate_tokens lib.count compacted_context;
    raw_observation_tokens = estimate_tokens lib.count (array observations);
    observation_token_budget = observation_token_budget;
  }

  -- `none` is a loop that runs out of fuel.
  unfoldable pub compact_agent_context :
      PlannedTask
      → (run_id step_number max_steps : ℕ) → MemoryContext
      → (observations : List Json) → (observation_token_budget : ℕ) → Option ContextCompactionResult
  unfolding execution_context context_with uncompacted compacted compact_observations with_field
  compact_agent_context task run_id step_number max_steps memory_context observations budget =
      let context =
        context_with task (execution_context task run_id step_number max_steps) memory_context in
      if leb (estimate_tokens lib.count (array observations)) budget || is_empty_list observations
      then some (uncompacted (context observations) observations budget)
      else elim (compact_observations lib observations budget) [
        | none ↦ none
        | some c ↦ some (
            compacted (context observations)
              (with_field "observations" (array c.observations) (context observations)) observations
              budget c)
      ]
