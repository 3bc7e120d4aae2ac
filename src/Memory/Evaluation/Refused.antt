-- ===== src/Memory/Evaluation/Refused.antt =====
-- app/services/memory_evaluator.py: what a refused candidate leaves, and an accepted one has passed.
use careerops_agent.Shared.{
  ◌&&◌, ◌||◌, Eq_nat, Eq_option, ℕ, ◌≡◌, ◌≢◌, ◌⊎◌, refl, if◌then◌else◌, Bool, true, false, not,
  Option, none, some, first, ◌==◌, Eq_text, Bool-cases, inl, inr, is_some,
}
use careerops_agent.Shared.Text.{ends_with}
use careerops_agent.Context.Task.{PlannedTask}
use careerops_agent.Memory.Rows.{AgentMemory, MemoryDb, type_eq, scope_eq}
use careerops_agent.Memory.Candidate.{MemoryCandidate, Evidence}
use careerops_agent.Memory.Rules.{
  TextLibrary, Verdict, accept, needs_review, reject, is_accept, normalized, canonical,
}
use careerops_agent.Memory.Semantics.{MemoryEvaluation, SemanticEvaluator}
use careerops_agent.Memory.Evaluation.{
  same_key, can_auto_supersede, store_new, store_over, store, evaluate_and_store_candidate, judge,
}
use careerops_agent.Memory.Decision.{evaluate_rules}

accepted : (v : Verdict) → is_accept v ≡ true → v ≡ accept
accepted accept h = refl
accepted needs_review h = cc
accepted reject h = cc

-- Either the evaluation accepts, as the rules did, or memories and revisions are as before.
abbrev Kept : MemoryDb → MemoryEvaluation → MemoryEvaluation × MemoryDb → Type 0
Kept db rule (e, db') =
    ((is_accept e.decision ≡ true) × (is_accept rule.decision ≡ true))
    ⊎ ((is_accept e.decision ≡ false)
        × (db'.memories ≡ db.memories)
        × (db'.revisions ≡ db.revisions))

store_over-Kept :
    (lib : TextLibrary) (now : ℕ) (db : MemoryDb) (task : PlannedTask) (rule : MemoryEvaluation)
    (existing : AgentMemory)
    → is_accept rule.decision ≡ true
    → Kept db rule (store_over lib now db task rule existing)
unfolding store_over
store_over-Kept lib now db task rule existing h =
    let c = rule.candidate in
    elim (Bool-cases (normalized lib existing.content == normalized lib c.content)) [
      | inl t ↦ rw t (inl (h, h))
      | inr f ↦ rw f (elim (Bool-cases (can_auto_supersede existing c)) [
        | inl t ↦ rw t (inl (h, h))
        | inr g ↦ rw g (inr (refl, refl, refl))
      ])
    ]

if_accepted-Kept :
    (db : MemoryDb) (rule : MemoryEvaluation) (stored : MemoryEvaluation × MemoryDb) (b : Bool)
    → is_accept rule.decision ≡ b
    → (is_accept rule.decision ≡ true → Kept db rule stored)
    → Kept db rule (if b then stored else (rule, db))
if_accepted-Kept db rule stored true e h = h e
if_accepted-Kept db rule stored false e h = inr (e, refl, refl)

store-Kept :
    (lib : TextLibrary) (now : ℕ) (db : MemoryDb) (task : PlannedTask) (rule : MemoryEvaluation)
    (existing : Option AgentMemory)
    → Kept db rule (store lib now db task rule existing)
unfolding store store_new
store-Kept lib now db task rule none =
    if_accepted-Kept db rule (store_new lib now db task rule) (is_accept rule.decision) refl
      (λ t. inl (t, t))
store-Kept lib now db task rule (some existing) =
    if_accepted-Kept db rule (store_over lib now db task rule existing) (is_accept rule.decision)
      refl (store_over-Kept lib now db task rule existing)

-- If a candidate is not accepted, with or without a language model, no memory and no revision
-- changes.
pub evaluate_and_store_candidate_refused :
    (lib : TextLibrary) (semantics : Option SemanticEvaluator) (now : ℕ) (db : MemoryDb)
    (seen : Evidence) (task : PlannedTask) (c : MemoryCandidate)
    → (evaluate_and_store_candidate lib semantics now db seen task c).0.decision ≢ accept
    → ((evaluate_and_store_candidate lib semantics now db seen task c).1.memories ≡ db.memories)
      × ((evaluate_and_store_candidate lib semantics now db seen task c).1.revisions ≡ db.revisions)
unfolding evaluate_and_store_candidate
evaluate_and_store_candidate_refused lib semantics now db seen task c h =
    let existing = first (same_key task c) db.memories in
    let rule =
      judge lib semantics db task (evaluate_rules lib db seen task c (not (is_some existing))) in
    elim (store-Kept lib now db task rule existing) [
      | inl stored ↦ absurd (h (accepted _ stored.0))
      | inr kept ↦ (kept.1, kept.2)
    ]

-- A memory of the candidate's contract, type, scope, task and run that says the same: the
-- candidate's content, or its relevant text at the end, up to case and spaces, or the content up to
-- punctuation.
abbrev pub duplicates : TextLibrary → PlannedTask → MemoryCandidate → AgentMemory → Bool
duplicates lib task c m =
    m.goal_contract_id == task.goal_contract_id
    && type_eq m.memory_type c.memory_type
    && scope_eq m.scope_type c.scope_type
    && m.task_id == c.task_id
    && m.run_id == c.run_id
    && (normalized lib m.content == normalized lib c.content
        || ends_with (normalized lib c.relevance_text) (normalized lib m.content)
        || (not (canonical lib c.content == "")
            && canonical lib m.content == canonical lib c.content))
