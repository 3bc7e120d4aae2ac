-- ===== src/Memory/Semantics/Trusted.antt =====
-- app/services/memory_evaluator.py: when the judgment of a language model is followed.
use careerops_agent.Shared.{
  ℕ, String, ◌≡◌, refl, true, false, Option, none, some, List, [], Eq_nat, arith,
}
use careerops_agent.Tool.Rows.{Json}
use careerops_agent.Context.Task.{PlannedTask}
use careerops_agent.Memory.Rows.{MemoryDb, type_eq}
use careerops_agent.Memory.Rules.{accept, needs_review}
use careerops_agent.Memory.Semantics.{
  MemoryEvaluation, SemanticMemoryJudgment, apply_semantic_result, SemanticEvaluator, judged,
  searched, evaluate_semantics,
}

-- A candidate under review is accepted only on a judgment that accepts it as a memory of its own
-- type that is worth keeping, and that names neither a duplicate nor a conflict.
pub apply_semantic_result-accept :
    (rule : MemoryEvaluation) (j : SemanticMemoryJudgment) (known_ids : List ℕ) (version : String)
    (output : Json)
    → rule.decision ≡ needs_review
    → (apply_semantic_result rule j known_ids version output).decision ≡ accept
    → (j.decision ≡ accept)
      × (type_eq j.memory_type rule.candidate.memory_type ≡ true)
      × (j.conflict_memory_ids ≡ [])
      × (j.semantic_duplicate_memory_id ≡ none)
      × (j.low_long_term_value ≡ false)
unfolding apply_semantic_result
apply_semantic_result-accept rule j known_ids version output review h = ground arith

apply_semantic_result-candidate :
    (rule : MemoryEvaluation) (j : SemanticMemoryJudgment) (known_ids : List ℕ) (version : String)
    (output : Json)
    → (apply_semantic_result rule j known_ids version output).candidate ≡ rule.candidate
unfolding apply_semantic_result
apply_semantic_result-candidate rule j known_ids version output = ground arith

judged-candidate :
    (e : SemanticEvaluator) (rule : MemoryEvaluation) (similar : List ℕ)
    (answer : Option (SemanticMemoryJudgment × String))
    → (judged e rule similar answer).candidate ≡ rule.candidate
unfolding judged
judged-candidate e rule similar none = refl
judged-candidate e rule similar (some (j, version)) =
    apply_semantic_result-candidate rule j similar version (e.dump j similar)

searched-candidate :
    (e : SemanticEvaluator) (rule : MemoryEvaluation) (found : Option (List ℕ))
    → (searched e rule found).candidate ≡ rule.candidate
unfolding searched
searched-candidate e rule none = refl
searched-candidate e rule (some similar) =
    judged-candidate e rule similar (e.evaluate rule.candidate similar)

pub evaluate_semantics-candidate :
    (e : SemanticEvaluator) (db : MemoryDb) (task : PlannedTask) (rule : MemoryEvaluation)
    → (evaluate_semantics e db task rule).candidate ≡ rule.candidate
unfolding evaluate_semantics
evaluate_semantics-candidate e db task rule = searched-candidate e rule _
