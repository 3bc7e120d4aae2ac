-- ===== src/Memory/Evaluation/Stored.antt =====
-- app/services/memory_evaluator.py: what storing a candidate does to the table of memories.
use careerops_agent.Shared.{
  ℕ, String, ◌≡◌, ◌≢◌, refl, ap, true, false, not, Option, none, some, List, [], ◌∷◌, All, first,
  ◌==◌, Eq_nat, Eq_text, Bool-cases, inl, inr, ◌∙◌, ==_refl, IsTable, IsTable-append,
  IsTable-update, first-none, is_some,
}
use careerops_agent.Context.Task.{PlannedTask}
use careerops_agent.Memory.Rows.{
  MemoryType, working, episodic, fact, type_eq, AgentMemory, MemoryDb,
}
use careerops_agent.Memory.Versioning.{supersede_memory}
use careerops_agent.Memory.Candidate.{MemoryCandidate, Evidence}
use careerops_agent.Memory.Rules.{TextLibrary, is_accept, normalized}
use careerops_agent.Memory.Semantics.{MemoryEvaluation, SemanticEvaluator}
use careerops_agent.Memory.Evaluation.{
  same_key, can_auto_supersede, store_new, store_over, store, evaluate_and_store_candidate,
  new_memory, judge,
}
use careerops_agent.Memory.Decision.{evaluate_rules, asks_semantics}
use careerops_agent.Memory.Decision.Accepted.{evaluate_rules-candidate}
use careerops_agent.Memory.Semantics.Trusted.{evaluate_semantics-candidate}

-- The columns of the unique constraint.
abbrev pub unique_key : AgentMemory → ℕ × MemoryType × String
unique_key m = (m.goal_contract_id, m.memory_type, m.memory_key)

-- The memories are numbered, and no two have the same contract, type and key.
abbrev pub IsUnique : MemoryDb → Type 0
IsUnique db = IsTable (λ m. m.id) unique_key db.memories

type_eq_refl : (t : MemoryType) → type_eq t t ≡ true
type_eq_refl working = refl
type_eq_refl episodic = refl
type_eq_refl fact = refl

other_key :
    (task : PlannedTask) (c : MemoryCandidate) (m : AgentMemory)
    → same_key task c m ≡ false
    → unique_key m ≢ (task.goal_contract_id, c.memory_type, c.memory_key)
other_key task c m h e =
    cc (h, e, ==_refl task.goal_contract_id, type_eq_refl c.memory_type, ==_refl c.memory_key)

others_keys :
    (task : PlannedTask) (c : MemoryCandidate) (ms : List AgentMemory)
    → All (λ m. same_key task c m ≡ false) ms
    → All (λ m. unique_key m ≢ (task.goal_contract_id, c.memory_type, c.memory_key)) ms
others_keys task c [] h = tt
others_keys task c (m ∷ ms) h = (other_key task c m h.0, others_keys task c ms h.1)

store_new-IsUnique :
    (lib : TextLibrary) (now : ℕ) (db : MemoryDb) (task : PlannedTask) (rule : MemoryEvaluation)
    → first (same_key task rule.candidate) db.memories ≡ none
    → IsUnique db
    → IsUnique (store_new lib now db task rule).1
unfolding store_new
store_new-IsUnique lib now db task rule absent u =
    let c = rule.candidate in
    IsTable-append (λ m. m.id) unique_key db.memories (new_memory lib now db task c) refl
      (others_keys task c db.memories (first-none (same_key task c) db.memories absent)) u

store_over-IsUnique :
    (lib : TextLibrary) (now : ℕ) (db : MemoryDb) (task : PlannedTask) (rule : MemoryEvaluation)
    (existing : AgentMemory)
    → first (same_key task rule.candidate) db.memories ≡ some existing
    → IsUnique db
    → IsUnique (store_over lib now db task rule existing).1
unfolding store_over supersede_memory
store_over-IsUnique lib now db task rule existing found u =
    let c = rule.candidate in
    elim (Bool-cases (normalized lib existing.content == normalized lib c.content)) [
      | inl t ↦ rw t u
      | inr f ↦ rw f (elim (Bool-cases (can_auto_supersede existing c)) [
        | inl t ↦ rw t (
            IsTable-update (λ m. m.id) unique_key (same_key task c) existing _ db.memories found
              refl refl u)
        | inr g ↦ rw g u
      ])
    ]

store-IsUnique :
    (lib : TextLibrary) (now : ℕ) (db : MemoryDb) (task : PlannedTask) (rule : MemoryEvaluation)
    (existing : Option AgentMemory)
    → first (same_key task rule.candidate) db.memories ≡ existing
    → IsUnique db
    → IsUnique (store lib now db task rule existing).1
unfolding store
store-IsUnique lib now db task rule none found u = elim (Bool-cases (is_accept rule.decision)) [
  | inl t ↦ rw t (store_new-IsUnique lib now db task rule found u)
  | inr f ↦ rw f u
]
store-IsUnique lib now db task rule (some existing) found u =
    elim (Bool-cases (is_accept rule.decision)) [
      | inl t ↦ rw t (store_over-IsUnique lib now db task rule existing found u)
      | inr f ↦ rw f u
    ]

-- The candidate that is judged is the one that was given.
judge-candidate :
    (lib : TextLibrary) (semantics : Option SemanticEvaluator) (db : MemoryDb) (task : PlannedTask)
    (rule : MemoryEvaluation)
    → (judge lib semantics db task rule).candidate ≡ rule.candidate
judge-candidate lib none db task rule = refl
judge-candidate lib (some e) db task rule = elim (Bool-cases (asks_semantics rule)) [
  | inl t ↦ rw t (evaluate_semantics-candidate e db task rule)
  | inr f ↦ rw f refl
]

-- Whatever candidate is evaluated, with or without a language model, the memories stay numbered and
-- no two of them get the same contract, type and key.
pub evaluate_and_store_candidate-IsUnique :
    (lib : TextLibrary) (semantics : Option SemanticEvaluator) (now : ℕ) (db : MemoryDb)
    (seen : Evidence) (task : PlannedTask) (c : MemoryCandidate)
    → IsUnique db
    → IsUnique (evaluate_and_store_candidate lib semantics now db seen task c).1
unfolding evaluate_and_store_candidate
evaluate_and_store_candidate-IsUnique lib semantics now db seen task c u =
    let existing = first (same_key task c) db.memories in
    let rules = evaluate_rules lib db seen task c (not (is_some existing)) in
    let same =
      judge-candidate lib semantics db task rules
      ∙ evaluate_rules-candidate lib db seen task c (not (is_some existing)) in
    store-IsUnique lib now db task (judge lib semantics db task rules) existing
      (ap (λ c'. first (same_key task c') db.memories) same) u
