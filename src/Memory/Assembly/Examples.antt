-- ===== src/Memory/Assembly/Examples.antt =====
-- A task with a memory of its own, one of another task, and one that has expired.
use careerops_agent.Shared.{
  ℕ, ◌≤◌, ◌≡◌, refl, true, none, some, [], ◌∷◌, All, length, ok, arith, Option,
}
use careerops_agent.Context.Task.{PlannedTask}
use careerops_agent.Memory.Rows.{AgentMemory, MemoryScope, fact, MemoryStatus}
use careerops_agent.Memory.Context.{MemoryContext}
use careerops_agent.Memory.Visible.{knowledge_documents}
use careerops_agent.Memory.Assembly.{Retrieval, MemoryTables, Limits, assemble_memory_context}
use careerops_agent.Memory.Assembly.Shown.{IsShown, IsCostOf, assemble_memory_context-Shows}
use careerops_agent.Retrieval.Examples.{thousandths, whole_texts, answering, no_others, same_text}

abbrev retrieval : Retrieval ℕ (Unit {0})
retrieval = record {
  floats = thousandths;
  tokens = whole_texts;
  semantic_threshold = 550;
  find_identifiers = λ query. [];
  count = λ payload. 5;
  sha256 = same_text;
  others = no_others;
  provider = some answering;
}

abbrev memory : (id task_id : ℕ) (expires_at : Option ℕ) → AgentMemory
memory id task_id expires_at = record {
  id = id;
  goal_contract_id = 1;
  scope_type = MemoryScope.task;
  task_id = some task_id;
  run_id = none;
  memory_type = fact;
  memory_key = "role";
  content = "Agent engineer";
  source = "user";
  importance = 3;
  version = 1;
  status = MemoryStatus.active;
  expires_at = expires_at;
  retired_at = none;
  retirement_reason = none;
  created_at = 5;
  updated_at = 5;
}

abbrev tables : MemoryTables
tables = record {
  contracts =
      record {
        id = 1;
        version = 1;
        north_star_goal = "a harness";
        product_context = "jobs";
        learning_contract = "explain";
        scope_guardrails = [];
        success_criteria = [];
        is_active = true;
        created_at = 0;
      }
      ∷ [];
  memories = memory 1 4 none ∷ memory 2 9 none ∷ memory 3 4 (some 10) ∷ [];
  jobs = record { jobs = []; archives = []; skills = []; requirements = [] };
}

abbrev task : PlannedTask
task = record {
  id = 4;
  goal_contract_id = 1;
  title = "learn";
  user_goal = "a job";
  constraints = [];
  success_criteria = [];
  plan_steps = [];
}

abbrev limits : Limits
limits = record { memory_limit = 8; knowledge_limit = 4; memory_token_budget = 100 }

assemble_memory_context-Shows_example :
    (c : MemoryContext) × ((assemble_memory_context retrieval 20 tables task none limits ([], tt)).0
      ≡ some (ok c))
    × All (IsShown (λ m. m.id ≤ 3) 20 1 4 none) c.memories
    × IsCostOf retrieval.count c.tokens_used c.memories c.knowledge
    × (c.tokens_used ≤ 100)
    × (length c.memories ≤ 8)
    × (length c.knowledge ≤ 4)
unfolding knowledge_documents
assemble_memory_context-Shows_example =
    assemble_memory_context-Shows retrieval 20 tables task none limits ([], tt) (λ m. m.id ≤ 3)
      (omega arith, (omega arith, (omega arith, tt))) refl refl
