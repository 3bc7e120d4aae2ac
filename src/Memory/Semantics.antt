-- ===== src/Memory/Semantics.antt =====
-- app/services/memory_evaluator.py: what becomes of a candidate that a language model judged. The
-- judgment is that of app/services/semantic_memory_evaluator.py.
pub mod Trusted
use Prim.Native.String.{◌++◌ as concat}
use careerops_agent.Shared.{
  ℕ, String, Bool, true, false, not, ◌&&◌, ◌||◌, Option, none, some, List, [], ◌∷◌, ◌++◌, any, all,
  keep, if◌then◌else◌, ◌==◌, Eq_nat, Eq_text, Eq_option, is_some,
}
use careerops_agent.Tool.Rows.{Json, str, obj, end, field}
use careerops_agent.Context.Task.{PlannedTask}
use careerops_agent.Memory.Rows.{
  MemoryType, type_eq, MemoryScope, scope_eq, is_retired, AgentMemory, MemoryDb,
}
use careerops_agent.Memory.Candidate.{MemoryCandidate}
use careerops_agent.Memory.Rules.{Verdict, accept, reject, is_accept, is_reject}

pub record MemoryEvaluation : Type 0 where
  pub decision : Verdict
  pub reasons : List String
  pub candidate : MemoryCandidate
  pub storage_action : String
  pub memory : Option AgentMemory
  pub duplicate_memory_id : Option ℕ
  pub evaluator_version : String
  pub evaluator_output : Option Json

-- The rationale is left out. An id of a duplicate is at least 1.
pub record SemanticMemoryJudgment : Type 0 where
  pub decision : Verdict
  pub memory_type : MemoryType
  pub low_long_term_value : Bool
  pub semantic_duplicate_memory_id : Option ℕ
  pub conflict_memory_ids : List ℕ

-- A search for similar memories and an evaluator: `none` is an exception. The search gives the ids
-- of the memories that it shows to the evaluator, which answers with its version.
pub record SemanticEvaluator : Type 0 where
  pub evaluator_version : String
  pub provider_version : String
  pub rank_similar_memories : (content : String) → List AgentMemory → Option (List ℕ)
  pub evaluate : MemoryCandidate → (existing : List ℕ) → Option (SemanticMemoryJudgment × String)
  pub dump : SemanticMemoryJudgment → (similar : List ℕ) → Json

-- `_scopes_overlap`
pub overlaps : MemoryScope → MemoryCandidate → AgentMemory → Bool
overlaps MemoryScope.contract c m = scope_eq m.scope_type MemoryScope.contract
overlaps MemoryScope.task c m =
    scope_eq m.scope_type MemoryScope.contract
    || (scope_eq m.scope_type MemoryScope.task && m.task_id == c.task_id)
overlaps _ c m = scope_eq m.scope_type MemoryScope.run && m.run_id == c.run_id

abbrev pub one_or_none : Option ℕ → List ℕ
one_or_none none = []
one_or_none (some n) = n ∷ []

-- `referenced_ids`
abbrev pub referenced : SemanticMemoryJudgment → List ℕ
referenced j = j.conflict_memory_ids ++ one_or_none j.semantic_duplicate_memory_id

abbrev is_empty_list : List ℕ → Bool
is_empty_list [] = true
is_empty_list (x ∷ xs) = false

-- `_apply_semantic_result`
unfoldable pub apply_semantic_result :
    MemoryEvaluation
    → SemanticMemoryJudgment
    → (known_ids : List ℕ) (version : String) (output : Json) → MemoryEvaluation
apply_semantic_result rule j known_ids version output =
    let common = record rule { evaluator_version = version; evaluator_output = some output } in
    if not (all (λ i. any (λ k. k == i) known_ids) (referenced j))
    then record common { reasons = "invalid_model_memory_reference" ∷ [] }
    else if not (type_eq j.memory_type rule.candidate.memory_type)
    then record common { reasons = "model_memory_type_mismatch" ∷ [] }
    else if not (is_empty_list j.conflict_memory_ids)
    then record common { reasons = "semantic_conflict" ∷ [] }
    else if is_some j.semantic_duplicate_memory_id
    then record common {
      decision = reject;
      reasons = "semantic_duplicate" ∷ [];
      duplicate_memory_id = j.semantic_duplicate_memory_id;
    }
    else if j.low_long_term_value || is_reject j.decision
    then record common { decision = reject; reasons = "low_long_term_value" ∷ [] }
    else if is_accept j.decision
    then record common {
      decision = accept;
      reasons = "semantic_value_verified" ∷ "provenance_verified" ∷ [];
    }
    else record common { reasons = "model_requested_review" ∷ [] }

module _ (e : SemanticEvaluator) where
  judged :
      MemoryEvaluation
      → (similar : List ℕ) → Option (SemanticMemoryJudgment × String)
      → MemoryEvaluation
  unfolding apply_semantic_result
  judged rule similar none = record rule {
    reasons = "semantic_evaluator_failed" ∷ [];
    evaluator_version = concat e.evaluator_version ":failed";
    evaluator_output = some (obj (field "status" (str "failed") end));
  }
  judged rule similar (some (j, version)) =
      apply_semantic_result rule j similar version (e.dump j similar)

  searched : MemoryEvaluation → Option (List ℕ) → MemoryEvaluation
  unfolding judged
  searched rule none = record rule {
    reasons = "similarity_search_failed" ∷ [];
    evaluator_version = concat e.provider_version ":failed";
    evaluator_output = some (obj (field "status" (str "similarity_search_failed") end));
  }
  searched rule (some similar) = judged rule similar (e.evaluate rule.candidate similar)

  -- `_evaluate_semantics`
  unfoldable pub evaluate_semantics : MemoryDb → PlannedTask → MemoryEvaluation → MemoryEvaluation
  unfolding searched overlaps
  evaluate_semantics db task rule =
      let c = rule.candidate in
      searched rule (
        e.rank_similar_memories c.content (
          keep
            (λ m.
              m.goal_contract_id == task.goal_contract_id
              && type_eq m.memory_type c.memory_type
              && not (is_retired m.status)
              && overlaps c.scope_type c m)
            db.memories))
