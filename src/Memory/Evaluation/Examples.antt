-- ===== src/Memory/Evaluation/Examples.antt =====
-- The outcome of a run, evaluated and stored; and candidates that are refused.
use careerops_agent.Shared.{
  List, ℕ, ◌≡◌, ◌≢◌, refl, sym, ◌∙◌, true, false, none, some, [], ◌∷◌, keep, ◌≤◌, arith, String,
  All,
}
use careerops_agent.Shared.Text.{squeeze}
use careerops_agent.Tool.Rows.{null}
use careerops_agent.Context.Examples.{hunt}
use careerops_agent.Run.Rows.{AgentRun, RunStatus}
use careerops_agent.Memory.Rows.{AgentMemory, MemoryDb, MemoryScope, episodic, active, type_eq}
use careerops_agent.Memory.Candidate.{MemoryCandidate, Evidence, build_run_outcome_candidate}
use careerops_agent.Memory.Rules.{TextLibrary, accept, needs_review}
use careerops_agent.Memory.Semantics.{
  MemoryEvaluation, SemanticMemoryJudgment, apply_semantic_result,
}
use careerops_agent.Memory.Semantics.Trusted.{apply_semantic_result-accept}
use careerops_agent.Memory.Evaluation.{evaluate_and_store_candidate}
use careerops_agent.Memory.Evaluation.Stored.{IsUnique, evaluate_and_store_candidate-IsUnique}
use careerops_agent.Memory.Evaluation.Refused.{evaluate_and_store_candidate_refused}
use careerops_agent.Memory.Maintenance.{Retirement, kept_for, retirements, maintain_task_memories}
use careerops_agent.Memory.Maintenance.Justified.{IsJustified}
use careerops_agent.Memory.Maintenance.Accounted.{
  IsOfTask, IsAccounted, maintain_task_memories-IsJustified,
}

-- Texts without capital letters, secrets and punctuation.
abbrev pub plain : TextLibrary
plain = record { search = λ p s. false; casefold = λ s. s; is_alnum = λ n. true }

abbrev pub hunting : AgentRun
hunting = record {
  id = 2;
  task_id = 4;
  provider = "demo";
  model = "policy";
  status = RunStatus.running;
  max_steps = 3;
  step_count = 1;
  final_answer = none;
  stop_reason = none;
  error = none;
  lease_owner = none;
  lease_expires_at = none;
  lease_heartbeat_at = none;
  started_at = 5;
  completed_at = none;
}

abbrev known : Evidence
known = record { runs = hunting ∷ []; steps = []; links = []; tool_calls = []; traces = [] }

abbrev no_memories : MemoryDb
no_memories = record { memories = []; revisions = []; candidates = []; cleanups = [] }

abbrev outcome : MemoryCandidate
outcome = build_run_outcome_candidate hunt hunting "three adverts ask for agents"

abbrev rumour : MemoryCandidate
rumour = record outcome { source = "hearsay" }

undecided : needs_review ≢ accept
undecided = λ h. cc

rumour_reviewed :
    (evaluate_and_store_candidate plain none 9 no_memories known hunt rumour).0.decision
    ≡ needs_review
unfolding evaluate_and_store_candidate build_run_outcome_candidate squeeze
rumour_reviewed = refl

evaluate_and_store_candidate_refused_example :
    ((evaluate_and_store_candidate plain none 9 no_memories known hunt rumour).1.memories ≡ [])
    × ((evaluate_and_store_candidate plain none 9 no_memories known hunt rumour).1.revisions ≡ [])
evaluate_and_store_candidate_refused_example =
    evaluate_and_store_candidate_refused plain none 9 no_memories known hunt rumour
      (λ h. undecided (sym rumour_reviewed ∙ h))

evaluate_and_store_candidate-IsUnique_example :
    IsUnique (evaluate_and_store_candidate plain none 9 no_memories known hunt outcome).1
evaluate_and_store_candidate-IsUnique_example =
    evaluate_and_store_candidate-IsUnique plain none 9 no_memories known hunt outcome (tt, tt)

abbrev in_review : MemoryEvaluation
in_review = record {
  decision = needs_review;
  reasons = "semantic_evaluation_required" ∷ [];
  candidate = rumour;
  storage_action = "not_stored";
  memory = none;
  duplicate_memory_id = none;
  evaluator_version = "deterministic-v2";
  evaluator_output = none;
}

abbrev worthwhile : SemanticMemoryJudgment
worthwhile = record {
  decision = accept;
  memory_type = episodic;
  low_long_term_value = false;
  semantic_duplicate_memory_id = none;
  conflict_memory_ids = [];
}

apply_semantic_result-accept_example :
    (worthwhile.decision ≡ accept)
    × (type_eq worthwhile.memory_type rumour.memory_type ≡ true)
    × (worthwhile.conflict_memory_ids ≡ [])
    × (worthwhile.semantic_duplicate_memory_id ≡ none)
    × (worthwhile.low_long_term_value ≡ false)
unfolding apply_semantic_result build_run_outcome_candidate
apply_semantic_result-accept_example =
    apply_semantic_result-accept in_review worthwhile (1 ∷ []) "v1" null refl refl

abbrev episode : (id : ℕ) → (content : String) → AgentMemory
episode id content = record {
  id = id;
  goal_contract_id = 1;
  scope_type = MemoryScope.task;
  task_id = some 4;
  run_id = none;
  memory_type = episodic;
  memory_key = content;
  content = content;
  source = "agent_runtime";
  importance = 3;
  version = 1;
  status = active;
  expires_at = none;
  retired_at = none;
  retirement_reason = none;
  created_at = 5;
  updated_at = 5;
}

abbrev episodes : MemoryDb
episodes = record no_memories { memories = episode 1 "a" ∷ episode 2 "b" ∷ episode 3 "a" ∷ [] }

abbrev a_retirement : List Retirement
unfolding retirements
a_retirement = retirements 9 1 (keep (kept_for hunt) episodes.memories)

maintain_task_memories-IsJustified_example :
    All (IsJustified (IsOfTask (λ m. m.id ≤ 3) hunt) 9) a_retirement
    × All (IsAccounted (λ m. m.id ≤ 3) 9 a_retirement) episodes.memories
unfolding maintain_task_memories
maintain_task_memories-IsJustified_example =
    maintain_task_memories-IsJustified (λ m. m.id ≤ 3) 9 true false 1 30 hunt episodes
      (omega arith, (omega arith, (omega arith, tt))) refl
