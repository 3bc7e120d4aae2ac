-- ===== src/Memory/Evaluation.antt =====
-- app/services/memory_evaluator.py: a judged candidate is stored or refused, and recorded.
pub mod Stored
pub mod Refused
pub mod Examples
use careerops_agent.Shared.{
  ℕ, suc, String, Bool, false, not, ◌&&◌, Option, none, some, [], ◌∷◌, ◌++◌, any, first, length,
  update_where, if◌then◌else◌, is_some, ◌==◌, Eq_nat, Eq_text, Eq_option,
}
use careerops_agent.Shared.Text.{starts_with}
use careerops_agent.Context.Json.{get}
use careerops_agent.Context.Task.{PlannedTask}
use careerops_agent.Run.Rows.{AgentRun}
use careerops_agent.Memory.Rows.{
  fact, type_eq, scope_eq, active, is_retired, AgentMemory, MemoryCandidateRecord, MemoryDb,
}
use careerops_agent.Memory.Versioning.{record_initial_memory_version, supersede_memory}
use careerops_agent.Memory.Candidate.{MemoryCandidate, Evidence, is_num}
use careerops_agent.Memory.Rules.{TextLibrary, reject, is_accept, verdict_name, normalized}
use careerops_agent.Memory.Semantics.{MemoryEvaluation, SemanticEvaluator, evaluate_semantics}
use careerops_agent.Memory.Decision.{id_of, asks_semantics, evaluate_rules}

abbrev pub purged_payload : String
purged_payload = "[retired payload purged]"

abbrev same_key : PlannedTask → MemoryCandidate → AgentMemory → Bool
same_key task c m =
    m.goal_contract_id == task.goal_contract_id
    && type_eq m.memory_type c.memory_type
    && m.memory_key == c.memory_key

-- `_can_auto_supersede`
pub can_auto_supersede : AgentMemory → MemoryCandidate → Bool
unfolding starts_with
can_auto_supersede existing c =
    not (is_retired existing.status)
    && type_eq c.memory_type fact
    && starts_with "tool:" c.source
    && scope_eq existing.scope_type c.scope_type
    && existing.task_id == c.task_id
    && existing.run_id == c.run_id

module _ (lib : TextLibrary) where
  -- What an accepted candidate leaves: the evaluation, and the tables of memories and revisions.
  new_memory : (now : ℕ) → MemoryDb → PlannedTask → MemoryCandidate → AgentMemory
  new_memory now db task c = record {
    id = suc (length db.memories);
    goal_contract_id = task.goal_contract_id;
    scope_type = c.scope_type;
    task_id = c.task_id;
    run_id = c.run_id;
    memory_type = c.memory_type;
    memory_key = c.memory_key;
    content = c.content;
    source = c.source;
    importance = c.importance;
    version = 1;
    status = active;
    expires_at = none;
    retired_at = none;
    retirement_reason = none;
    created_at = now;
    updated_at = now;
  }

  store_new : (now : ℕ) → MemoryDb → PlannedTask → MemoryEvaluation → MemoryEvaluation × MemoryDb
  unfolding new_memory record_initial_memory_version
  store_new now db task rule =
      let memory = new_memory now db task rule.candidate in
      let (initial, revisions) =
        record_initial_memory_version memory (some rule.candidate.provenance) db.revisions in
      (
        record rule { storage_action = "stored"; memory = some memory },
        record db { memories = db.memories ++ memory ∷ []; revisions = revisions },
      )

  store_over :
      (now : ℕ)
      → MemoryDb
      → PlannedTask
      → MemoryEvaluation
      → AgentMemory
      → MemoryEvaluation × MemoryDb
  unfolding normalized can_auto_supersede supersede_memory
  store_over now db task rule existing =
      let c = rule.candidate in
      if normalized lib existing.content == normalized lib c.content
      then (
        record rule {
          reasons = "stable_memory_key" ∷ "provenance_verified" ∷ [];
          storage_action = "already_stored";
          memory = some existing;
        },
        db,
      )
      else if can_auto_supersede existing c
      then (let (changed, revisions) =
            supersede_memory now existing c.content c.source c.importance (some c.provenance)
              "trusted_fact_changed" db.revisions in
          (
            record rule {
              reasons = "trusted_fact_superseded" ∷ "provenance_verified" ∷ [];
              storage_action = "superseded";
              memory = some changed;
            },
            record db {
              memories = update_where (λ m. m.id == existing.id) (λ _. changed) db.memories;
              revisions = revisions;
            },
          ))
      else (record rule { decision = reject; reasons = "memory_key_conflict" ∷ [] }, db)

  pub store :
      (now : ℕ)
      → MemoryDb
      → PlannedTask
      → MemoryEvaluation
      → Option AgentMemory
      → MemoryEvaluation × MemoryDb
  unfolding store_new store_over
  store now db task rule none =
      if is_accept rule.decision then store_new now db task rule else (rule, db)
  store now db task rule (some existing) =
      if is_accept rule.decision then store_over now db task rule existing else (rule, db)

  -- `_record_evaluation`, with the payload left out if it was cleaned up before.
  abbrev in_task : PlannedTask → Option AgentRun → Option ℕ
  in_task task none = none
  in_task task (some r) = if r.task_id == task.id then some r.id else none

  pub evaluation_record :
      Evidence → PlannedTask → (purged : Bool) → MemoryEvaluation → MemoryCandidateRecord
  unfolding get
  evaluation_record seen task purged e =
      let c = e.candidate in
      record {
        goal_contract_id = task.goal_contract_id;
        task_id = task.id;
        source_run_id =
            in_task task (first (λ r. is_num (get "agent_run_id" c.provenance) r.id) seen.runs);
        scope_run_id = c.run_id;
        memory_id = id_of e.memory;
        memory_type = c.memory_type;
        scope_type = c.scope_type;
        memory_key = c.memory_key;
        content = if purged then purged_payload else c.content;
        source = c.source;
        importance = c.importance;
        provenance = c.provenance;
        decision = verdict_name e.decision;
        storage_action = e.storage_action;
        reasons = e.reasons;
        evaluator_version = e.evaluator_version;
        evaluator_output = if purged then none else e.evaluator_output;
      }

  was_purged : MemoryDb → Option AgentMemory → Bool
  was_purged db none = false
  was_purged db (some m) = any (λ r. r.memory_id == m.id) db.cleanups

  abbrev judge :
      Option SemanticEvaluator → MemoryDb → PlannedTask → MemoryEvaluation → MemoryEvaluation
  judge none db task rule = rule
  judge (some e) db task rule =
      if asks_semantics rule then evaluate_semantics e db task rule else rule

  unfoldable pub evaluate_and_store_candidate :
      Option SemanticEvaluator
      → (now : ℕ) → MemoryDb
      → Evidence
      → PlannedTask
      → MemoryCandidate
      → MemoryEvaluation × MemoryDb
  unfolding evaluate_rules evaluate_semantics store evaluation_record was_purged
  evaluate_and_store_candidate semantics now db seen task c =
      let existing = first (same_key task c) db.memories in
      let rule =
        judge semantics db task (evaluate_rules lib db seen task c (not (is_some existing))) in
      let (e, db') = store now db task rule existing in
      (
        e,
        record db' {
          candidates =
              db'.candidates ++ evaluation_record seen task (was_purged db' existing) e ∷ [];
        },
      )
