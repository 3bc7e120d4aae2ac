-- ===== src/Memory/Visible.antt =====
-- app/services/memory_runtime.py: the memories that a task may see, and the documents made of them.
use Prim.Native.String.{◌++◌ as concat}
use careerops_agent.Shared.{
  ℕ, ◌+◌, ◌*◌, String, Bool, true, not, ◌&&◌, ◌||◌, Option, none, some, List, [], ◌∷◌, ◌++◌, map,
  keep, first, ltb, is_some, ◌==◌, Eq_nat, Eq_text, Eq_option, Result, ok, raised,
}
use careerops_agent.Shared.Text.{join, decimal}
use careerops_agent.Tool.Rows.{Json, null, num, str, PlanStep}
use careerops_agent.Context.Json.{object}
use careerops_agent.Context.Task.{PlannedTask}
use careerops_agent.Memory.Rows.{
  MemoryType, working, episodic, fact, MemoryScope, scope_eq, AgentMemory, is_retired,
}
use careerops_agent.Jobs.Rows.{Job, Skill, JobRequirement, JobDb}
use careerops_agent.Retrieval.Scores.{Floats}
use careerops_agent.Retrieval.Hybrid.{RetrievalDocument}

abbrev pub type_text : MemoryType → String
type_text working = "working"
type_text episodic = "episodic"
type_text fact = "fact"

abbrev pub scope_text : MemoryScope → String
scope_text MemoryScope.contract = "contract"
scope_text MemoryScope.task = "task"
scope_text MemoryScope.run = "run"
scope_text (MemoryScope.other s) = s

-- `TYPE_PRIORITY`
abbrev type_priority : MemoryType → ℕ
type_priority working = 30
type_priority fact = 20
type_priority episodic = 10

-- The `where` clauses of the query.
unfoldable pub is_visible : (contract_id task_id : ℕ) (run_id : Option ℕ) → AgentMemory → Bool
is_visible contract_id task_id run_id m =
    m.goal_contract_id == contract_id
    && not (is_retired m.status)
    && (scope_eq m.scope_type MemoryScope.contract
        || (scope_eq m.scope_type MemoryScope.task && m.task_id == some task_id)
        || (is_some run_id && scope_eq m.scope_type MemoryScope.run && m.run_id == run_id))

abbrev pub later_than : (now : ℕ) → Option ℕ → Bool
later_than now none = true
later_than now (some t) = ltb now t

-- `memory.expires_at is None or memory.expires_at > current_time`
unfoldable pub is_current : (now : ℕ) → AgentMemory → Bool
is_current now m = later_than now m.expires_at

abbrev pub opt_num : Option ℕ → Json
opt_num none = null
opt_num (some n) = num n

-- What a memory's document says of it.
unfoldable pub memory_payload : AgentMemory → Json
unfolding object
memory_payload m = object (
    ("id", num m.id)
    ∷ ("memory_type", str (type_text m.memory_type))
    ∷ ("scope_type", str (scope_text m.scope_type))
    ∷ ("task_id", opt_num m.task_id)
    ∷ ("run_id", opt_num m.run_id)
    ∷ ("memory_key", str m.memory_key)
    ∷ ("content", str m.content)
    ∷ ("source", str m.source)
    ∷ ("importance", num m.importance)
    ∷ [])

abbrev step_text : PlanStep → String
unfolding join
step_text s = join " " (s.title ∷ s.success_criterion ∷ s.goal_connection ∷ [])

-- What a task asks of the retrieval.
unfoldable pub task_query : PlannedTask → String
unfolding join
task_query task =
    let open_steps =
      keep (λ s. s.status == "pending" || s.status == "in_progress") task.plan_steps in
    join " " (
      task.title ∷ task.user_goal ∷ []
      ++ task.constraints
      ++ task.success_criteria
      ++ map step_text open_steps)

module _ {F : Type 0} (fl : Floats F) where
  unfoldable pub memory_document : AgentMemory → RetrievalDocument F
  unfolding memory_payload decimal join
  memory_document m = record {
    key = concat "memory:" (decimal m.id);
    source_type = "memory";
    content = join " " (type_text m.memory_type ∷ m.memory_key ∷ m.content ∷ []);
    prior_score = fl.of_nat (m.importance * 100 + type_priority m.memory_type);
    payload = memory_payload m;
  }

  unfoldable pub requirement_document :
      JobRequirement → Option Job → Option Skill → Option (RetrievalDocument F)
  unfolding decimal join object
  requirement_document r (some job) (some skill) = some (record {
    key = concat "job_requirement:" (decimal r.id);
    source_type = "job_requirement";
    content = join " " (job.company ∷ job.title ∷ skill.name ∷ r.evidence_text ∷ []);
    prior_score = fl.of_nat 0;
    payload = object (
        ("source_type", str "job_requirement")
        ∷ ("requirement_id", num r.id)
        ∷ ("job_id", num r.job_id)
        ∷ ("company", str job.company)
        ∷ ("title", str job.title)
        ∷ ("skill", str skill.name)
        ∷ ("evidence_text", str r.evidence_text)
        ∷ ("source_url", str job.source_url)
        ∷ ("trust", str "untrusted_public_evidence")
        ∷ ("instruction_policy", str "evidence_only")
        ∷ []);
  })
  requirement_document r job skill = none

  abbrev and_document :
      Option (RetrievalDocument F)
      → Result (List (RetrievalDocument F))
      → Result (List (RetrievalDocument F))
  and_document none rest = raised (record { kind = "AttributeError"; text = "" })
  and_document (some d) (raised x) = raised x
  and_document (some d) (ok rest) = ok (d ∷ rest)

  -- The documents of all requirements. Foreign keys give each one its job and its skill.
  unfoldable pub knowledge_documents :
      JobDb → List JobRequirement → Result (List (RetrievalDocument F))
  unfolding requirement_document
  knowledge_documents db [] = ok []
  knowledge_documents db (r ∷ requirements) =
      and_document
        (requirement_document r (first (λ j. j.id == r.job_id) db.jobs)
          (first (λ k. k.id == r.skill_id) db.skills))
        (knowledge_documents db requirements)
