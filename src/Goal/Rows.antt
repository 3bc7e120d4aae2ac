-- ===== src/Goal/Rows.antt =====
-- The rows of app/models.py for goal contracts.
use careerops_agent.Shared.{ℕ, String, Bool, List}

-- `updated_at` is left out: nothing reads it.
pub record GoalContract : Type 0 where
  pub id : ℕ
  pub version : ℕ
  pub north_star_goal : String
  pub product_context : String
  pub learning_contract : String
  pub scope_guardrails : List String
  pub success_criteria : List String
  pub is_active : Bool
  pub created_at : ℕ
