-- ===== src/Memory/Context.antt =====
-- app/services/memory_runtime.py: what the assembly of memories returns.
use careerops_agent.Shared.{
  ℕ, String, Bool, true, Option, List, [], ◌∷◌, ◌++◌, length, is_some, if◌then◌else◌, Dict,
}
use careerops_agent.Tool.Rows.{Json, bool, num, str}
use careerops_agent.Context.Json.{array, object}
use careerops_agent.Context.Task.{texts, opt_text}
use careerops_agent.Goal.Rows.{GoalContract}
use careerops_agent.Memory.Visible.{opt_num}

pub record MemoryContext : Type 0 where
  pub goal_contract : Json
  pub memories : List Json
  pub knowledge : List Json
  pub candidate_count : ℕ
  pub knowledge_candidate_count : ℕ
  pub excluded_expired_count : ℕ
  pub token_budget : ℕ
  pub tokens_used : ℕ
  pub retrieval_method : String
  pub retrieval_route : String
  pub retrieval_route_reason : String
  pub retrieval_route_signals : List String
  pub embedding_provider_version : Option String
  pub embedding_usage : Dict ℕ
  pub embedding_error : Option String
  pub selected_scores : List Json
  pub query : String
  pub filters : Json

abbrev numbers : Dict ℕ → List (String × Json)
numbers [] = []
numbers ((key, n) ∷ d) = (key, num n) ∷ numbers d

-- `audit_dict`, as the entries of a dictionary.
pub audit_entries : MemoryContext → List (String × Json)
unfolding object
audit_entries c =
    ("embedding_provider_version", opt_text c.embedding_provider_version)
    ∷ ("retrieval_route_reason", str c.retrieval_route_reason)
    ∷ ("retrieval_route_signals", texts c.retrieval_route_signals)
    ∷ ("embedding_usage", object (numbers c.embedding_usage))
    ∷ ("embedding_error", opt_text c.embedding_error)
    ∷ ("selected_scores", array c.selected_scores)
    ∷ ("query", str c.query)
    ∷ ("filters", c.filters)
    ∷ []

-- `as_dict`
unfoldable pub context_dict : (include_audit : Bool) → MemoryContext → Json
unfolding object audit_entries
context_dict include_audit c =
    let retrieval =
      ("candidate_count", num c.candidate_count)
      ∷ ("knowledge_candidate_count", num c.knowledge_candidate_count)
      ∷ ("selected_count", num (length c.memories))
      ∷ ("knowledge_selected_count", num (length c.knowledge))
      ∷ ("excluded_expired_count", num c.excluded_expired_count)
      ∷ ("token_budget", num c.token_budget)
      ∷ ("tokens_used", num c.tokens_used)
      ∷ ("token_estimator", str "langchain_count_tokens_approximately_v1")
      ∷ ("method", str c.retrieval_method)
      ∷ ("route", str c.retrieval_route)
      ∷ [] in
    object (
      ("goal_contract", c.goal_contract)
      ∷ ("memories", array c.memories)
      ∷ ("knowledge", array c.knowledge)
      ∷ ("retrieval", object (if include_audit then retrieval ++ audit_entries c else retrieval))
      ∷ [])

unfoldable pub contract_dict : GoalContract → Json
unfolding object
contract_dict c = object (
    ("id", num c.id)
    ∷ ("version", num c.version)
    ∷ ("north_star_goal", str c.north_star_goal)
    ∷ ("product_context", str c.product_context)
    ∷ ("learning_contract", str c.learning_contract)
    ∷ ("scope_guardrails", texts c.scope_guardrails)
    ∷ ("success_criteria", texts c.success_criteria)
    ∷ [])

unfoldable pub filters_of : (contract_id task_id : ℕ) (run_id : Option ℕ) → Json
unfolding object
filters_of contract_id task_id run_id = object (
    ("goal_contract_id", num contract_id)
    ∷ ("memory_status", str "active")
    ∷ ("exclude_expired", bool true)
    ∷ ("visible_scopes", texts ("contract" ∷ "task" ∷ (if is_some run_id then "run" ∷ [] else [])))
    ∷ ("task_id", num task_id)
    ∷ ("run_id", opt_num run_id)
    ∷ ("knowledge_source", str "public_job_requirements")
    ∷ [])
