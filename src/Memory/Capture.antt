-- ===== src/Memory/Capture.antt =====
-- app/services/memory_evaluator.py: the memories of a completed run and of a tool result.
use careerops_agent.Shared.{
  ℕ, String, ◌&&◌, Option, none, some, List, [], ◌∷◌, any, if◌then◌else◌, ◌==◌, Eq_nat, Eq_text,
  Eq_option,
}
use careerops_agent.Tool.Rows.{Json}
use careerops_agent.Context.Task.{PlannedTask}
use careerops_agent.Run.Rows.{AgentRun, RunStep}
use careerops_agent.Memory.Rows.{is_working, MemoryDb}
use careerops_agent.Memory.Candidate.{
  MemoryCandidate, Evidence, build_tool_working_memory_candidate,
}
use careerops_agent.Memory.Promotion.{build_run_memory_candidates}
use careerops_agent.Memory.Rules.{TextLibrary}
use careerops_agent.Memory.Semantics.{MemoryEvaluation}
use careerops_agent.Memory.Evaluation.{evaluate_and_store_candidate}

module _ (lib : TextLibrary) where
  -- `evaluate_and_store_run_memories`: the candidates are built before the first is stored.
  pub store_each :
      (now : ℕ)
      → Evidence
      → PlannedTask
      → List MemoryCandidate
      → MemoryDb
      → List MemoryEvaluation × MemoryDb
  unfolding evaluate_and_store_candidate
  store_each now seen task [] db = ([], db)
  store_each now seen task (c ∷ candidates) db =
      let (e, db') = evaluate_and_store_candidate lib none now db seen task c in
      let (es, db'') = store_each now seen task candidates db' in (e ∷ es, db'')

  unfoldable pub evaluate_and_store_run_memories :
      (now : ℕ)
      → MemoryDb
      → Evidence
      → PlannedTask
      → AgentRun
      → (answer : String) → List MemoryEvaluation × MemoryDb
  unfolding store_each build_run_memory_candidates
  evaluate_and_store_run_memories now db seen task run answer =
      store_each now seen task (build_run_memory_candidates db seen task run answer) db

  capture :
      (now : ℕ)
      → MemoryDb
      → Evidence
      → PlannedTask
      → Option MemoryCandidate
      → Option MemoryEvaluation × MemoryDb
  unfolding evaluate_and_store_candidate
  capture now db seen task none = (none, db)
  capture now db seen task (some c) =
      if any
        (λ m.
          m.goal_contract_id == task.goal_contract_id
          && is_working m.memory_type
          && m.memory_key == c.memory_key)
        db.memories
      then (none, db)
      else (let (e, db') = evaluate_and_store_candidate lib none now db seen task c in
          (some e, db'))

  unfoldable pub evaluate_and_store_tool_working_memory :
      (now : ℕ)
      → MemoryDb
      → Evidence
      → PlannedTask
      → AgentRun
      → RunStep
      → (tool_call_id : Option ℕ) → (observation : Json) → Option MemoryEvaluation × MemoryDb
  unfolding capture build_tool_working_memory_candidate
  evaluate_and_store_tool_working_memory now db seen task run step call observation =
      capture now db seen task (build_tool_working_memory_candidate task run step call observation)
