-- ===== src/Context/Examples.antt =====
-- A context with one observation too many.
use careerops_agent.Shared.{◌+◌, ◌≤◌, ◌<◌, ◌≡◌, refl, true, false, none, some, List, [], ◌∷◌}
use careerops_agent.Tool.Rows.{Json, null, str, end}
use careerops_agent.Context.Budget.{
  ContextTokenBudget, estimate_tokens, measure_context_budget, sections_cost, measure_sound,
}
use careerops_agent.Context.Task.{PlannedTask, MemoryContext}
use careerops_agent.Context.Compaction.{Library, compact_observations}
use careerops_agent.Context.Compaction.Fits.{Settles, compact_observations-Settles}
use careerops_agent.Context.Agent.{ContextCompactionResult, compact_agent_context}
use careerops_agent.Context.Agent.Sound.{Sound, compact_agent_context-Sound}

-- Every value counts 7 tokens, and `trim_messages` keeps one message.
abbrev pub sevens : Library
sevens = record { count = λ v. 7; dumps = λ v. "{}"; trim_last = λ n messages. 1 }

abbrev pub seen : List Json
seen = str "first" ∷ str "second" ∷ []

abbrev pub hunt : PlannedTask
hunt = record {
  id = 4;
  goal_contract_id = 1;
  title = "t";
  user_goal = "g";
  constraints = [];
  success_criteria = [];
  plan_steps = [];
}

abbrev pub memory : MemoryContext
memory = record { goal_contract = str "contract"; others = end }

abbrev measured : ContextTokenBudget
measured = record {
  model_context_tokens = 100;
  reserved_output_tokens = 10;
  input_token_budget = 90;
  prompt_tokens = 7;
  memory_tokens = 7;
  tool_tokens = 0;
  observation_tokens = 7;
  estimated_input_tokens = 21;
  remaining_input_tokens = 69;
  within_budget = true;
  compaction_input_tokens = 7;
  compaction_output_tokens = 7;
}

measure_sound_example :
    (1 ≤ 10)
    × (10 < 100)
    × (measured.input_token_budget + 10 ≡ 100)
    × (measured.prompt_tokens ≡ estimate_tokens (λ v. 7) (str "p"))
    × (measured.memory_tokens ≡ estimate_tokens (λ v. 7) (str "m"))
    × (measured.tool_tokens ≡ estimate_tokens (λ v. 7) null)
    × (measured.observation_tokens ≡ estimate_tokens (λ v. 7) (str "o"))
    × (measured.estimated_input_tokens
        ≡ measured.prompt_tokens + measured.memory_tokens + measured.tool_tokens
          + measured.observation_tokens)
    × (measured.within_budget ≡ true
        → sections_cost (λ v. 7) (str "p") (str "m") null (str "o")
            + measured.remaining_input_tokens
            + 10
          ≡ 100)
    × (measured.within_budget ≡ false
        → 100 < sections_cost (λ v. 7) (str "p") (str "m") null (str "o") + 10)
unfolding measure_context_budget estimate_tokens
measure_sound_example =
    measure_sound (λ v. 7) 100 10 (str "p") (str "m") null (str "o") none {b = measured} refl

compact_observations-Settles_example : Settles sevens 5 (compact_observations sevens seen 5)
compact_observations-Settles_example = compact_observations-Settles sevens seen 5

compact_agent_context-Sound_example :
    (r : ContextCompactionResult) × (compact_agent_context sevens hunt 2 3 6 memory seen 5 ≡ some r)
    × Sound sevens hunt 2 3 6 memory seen 5 r
compact_agent_context-Sound_example = compact_agent_context-Sound sevens hunt 2 3 6 memory seen 5
