-- ===== src/Memory/Decision.antt =====
-- app/services/memory_evaluator.py: what the rules decide on a candidate.
pub mod Accepted
use careerops_agent.Shared.{
  ℕ, String, Bool, true, false, ◌&&◌, Option, none, some, List, [], ◌∷◌, ◌++◌, any, if◌then◌else◌,
  ltb, is_some, ◌==◌, Eq_nat, Eq_text, Eq_option,
}
use careerops_agent.Shared.Text.{strip}
use careerops_agent.Tool.Authorization.{distinct}
use careerops_agent.Context.Json.{char_count}
use careerops_agent.Context.Task.{PlannedTask}
use careerops_agent.Memory.Rows.{AgentMemory, MemoryDb}
use careerops_agent.Memory.Candidate.{MemoryCandidate, Evidence}
use careerops_agent.Memory.Rules.{
  TextLibrary, secret_patterns, min_outcome_length, evaluator_version, Verdict, accept,
  needs_review, reject, is_needs_review, is_reject, scope_reasons, validate_provenance,
  find_duplicate,
}
use careerops_agent.Memory.Semantics.{MemoryEvaluation}

abbrev pub id_of : Option AgentMemory → Option ℕ
id_of none = none
id_of (some m) = some m.id

abbrev pub only_semantic : List String → Bool
only_semantic (r ∷ []) = r == "semantic_evaluation_required"
only_semantic _ = false

abbrev pub asks_semantics : MemoryEvaluation → Bool
asks_semantics e = is_needs_review e.decision && only_semantic e.reasons

abbrev evaluated : MemoryCandidate → Verdict → List String → Option ℕ → MemoryEvaluation
evaluated c decision reasons duplicate = record {
  decision = decision;
  reasons = reasons;
  candidate = c;
  storage_action = "not_stored";
  memory = none;
  duplicate_memory_id = duplicate;
  evaluator_version = evaluator_version;
  evaluator_output = none;
}

weigh :
    MemoryCandidate → Verdict × List String → Option AgentMemory → List String → MemoryEvaluation
unfolding distinct
weigh c (verdict, reasons) duplicate (r ∷ against) =
    evaluated c reject (distinct [] (r ∷ against)) (id_of duplicate)
weigh c (verdict, reasons) duplicate [] =
    if is_needs_review verdict
    then evaluated c needs_review reasons none
    else evaluated c accept ("informative" ∷ "novel" ∷ "provenance_verified" ∷ []) none

pub reason_if : Bool → String → List String
reason_if true reason = reason ∷ []
reason_if false reason = []

module _ (lib : TextLibrary) where
  -- What the rules hold against a candidate, before its provenance is weighed.
  pub reject_reasons :
      Evidence
      → PlannedTask
      → MemoryCandidate
      → Verdict × List String
      → Option AgentMemory
      → List String
  unfolding scope_reasons strip char_count reason_if
  reject_reasons seen task c (verdict, reasons) duplicate =
      let content = strip c.relevance_text in
      scope_reasons seen task c
      ++ (if is_reject verdict then reasons else [])
      ++ reason_if (ltb (char_count content) min_outcome_length) "insufficient_information"
      ++ reason_if (any (λ p. lib.search p content) secret_patterns) "contains_sensitive_value"
      ++ reason_if (is_some duplicate) "duplicate_content"

  -- `_evaluate_rules`
  unfoldable pub evaluate_rules :
      MemoryDb
      → Evidence
      → PlannedTask
      → MemoryCandidate
      → (check_duplicate : Bool) → MemoryEvaluation
  unfolding weigh reject_reasons validate_provenance find_duplicate
  evaluate_rules db seen task c check_duplicate =
      let provenance = validate_provenance lib seen task c in
      let duplicate = if check_duplicate then find_duplicate lib db task c else none in
      weigh c provenance duplicate (reject_reasons seen task c provenance duplicate)
