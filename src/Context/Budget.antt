-- ===== src/Context/Budget.antt =====
-- app/services/token_budget.py
use careerops_agent.Shared.{
  ℕ, ◌+◌, ◌-◌, ◌≤◌, ◌<◌, ◌≡◌, Bool, true, false, ◌||◌, Option, none, some, arith, ltb, leb,
  if◌then◌else◌, or_else,
}
use careerops_agent.Tool.Rows.{Json}
use careerops_agent.Context.Json.{is_empty}

-- `count` is `count_tokens_approximately` of the serialized value.
unfoldable pub estimate_tokens : (count : Json → ℕ) → Json → ℕ
estimate_tokens count value = if is_empty value then 0 else count value

pub record ContextTokenBudget : Type 0 where
  pub model_context_tokens : ℕ
  pub reserved_output_tokens : ℕ
  pub input_token_budget : ℕ
  pub prompt_tokens : ℕ
  pub memory_tokens : ℕ
  pub tool_tokens : ℕ
  pub observation_tokens : ℕ
  pub estimated_input_tokens : ℕ
  pub remaining_input_tokens : ℕ
  pub within_budget : Bool
  pub compaction_input_tokens : ℕ
  pub compaction_output_tokens : ℕ

-- `max(input - output, 0)`
pub compaction_saved_tokens : ContextTokenBudget → ℕ
compaction_saved_tokens b = b.compaction_input_tokens - b.compaction_output_tokens

-- `none` is the `ValueError`. `max(budget - estimate, 0)` is subtraction that stops at 0.
unfoldable pub measure_context_budget :
    (count : Json → ℕ)
    → (model_context_tokens reserved_output_tokens : ℕ)
    → (prompt memory_context tools observations : Json) → (raw_observations : Option Json)
    → Option ContextTokenBudget
unfolding estimate_tokens
measure_context_budget count model reserved prompt memory_context tools observations raw =
    if ltb model 1
    then none
    else if ltb reserved 1 || leb model reserved
    then none
    else let estimated =
        estimate_tokens count prompt
        + estimate_tokens count memory_context
        + estimate_tokens count tools
        + estimate_tokens count observations in
      some (record {
        model_context_tokens = model;
        reserved_output_tokens = reserved;
        input_token_budget = model - reserved;
        prompt_tokens = estimate_tokens count prompt;
        memory_tokens = estimate_tokens count memory_context;
        tool_tokens = estimate_tokens count tools;
        observation_tokens = estimate_tokens count observations;
        estimated_input_tokens = estimated;
        remaining_input_tokens = model - reserved - estimated;
        within_budget = leb estimated (model - reserved);
        compaction_input_tokens = estimate_tokens count (or_else raw observations);
        compaction_output_tokens = estimate_tokens count observations;
      })

-- What the four sections of a request cost together.
abbrev pub sections_cost : (count : Json → ℕ) (prompt memory_context tools observations : Json) → ℕ
sections_cost count prompt memory_context tools observations =
    estimate_tokens count prompt
    + estimate_tokens count memory_context
    + estimate_tokens count tools
    + estimate_tokens count observations

-- A measured request leaves room for the output. Each section's tokens are the estimate of that
-- section, and the estimate of the request is their sum; all sections and the reserve fit the
-- model's context exactly when the budget says that they do, and then the remaining tokens close
-- the gap.
pub measure_sound :
    (count : Json → ℕ) (model reserved : ℕ) (prompt memory_context tools observations : Json)
    (raw : Option Json) {b : ContextTokenBudget}
    → measure_context_budget count model reserved prompt memory_context tools observations raw
      ≡ some b
    → (1 ≤ reserved)
      × (reserved < model)
      × (b.input_token_budget + reserved ≡ model)
      × (b.prompt_tokens ≡ estimate_tokens count prompt)
      × (b.memory_tokens ≡ estimate_tokens count memory_context)
      × (b.tool_tokens ≡ estimate_tokens count tools)
      × (b.observation_tokens ≡ estimate_tokens count observations)
      × (b.estimated_input_tokens
          ≡ b.prompt_tokens + b.memory_tokens + b.tool_tokens + b.observation_tokens)
      × (b.within_budget ≡ true
          → sections_cost count prompt memory_context tools observations
              + b.remaining_input_tokens
              + reserved
            ≡ model)
      × (b.within_budget ≡ false
          → model < sections_cost count prompt memory_context tools observations + reserved)
unfolding measure_context_budget
measure_sound count model reserved prompt memory_context tools observations raw h = ground arith
