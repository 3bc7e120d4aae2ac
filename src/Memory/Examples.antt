-- ===== src/Memory/Examples.antt =====
-- A working memory that changes, and the end of its run.
use careerops_agent.Shared.{◌+◌, ◌≡◌, none, some, [], ◌∷◌, first}
use careerops_agent.Memory.Rows.{AgentMemory, AgentMemoryRevision, MemoryScope, working, active}
use careerops_agent.Memory.Versioning.{is_current, supersede_memory}
use careerops_agent.Memory.Versioning.History.{KeepsRevisions, History, supersede_memory-History}
use careerops_agent.Memory.Lifecycle.{works_for_run, retire_run_working_memories}
use careerops_agent.Memory.Lifecycle.Ended.{Ends, retire_run_working_memories-Ends}

abbrev plan : AgentMemory
plan = record {
  id = 3;
  goal_contract_id = 1;
  scope_type = MemoryScope.run;
  task_id = some 4;
  run_id = some 2;
  memory_type = working;
  memory_key = "plan";
  content = "read the advert";
  source = "agent";
  importance = 3;
  version = 1;
  status = active;
  expires_at = none;
  retired_at = none;
  retirement_reason = none;
  created_at = 5;
  updated_at = 5;
}

supersede_memory-History_example :
    let (m', rows') = supersede_memory 9 plan "write to them" "agent" 4 none "changed" [] in
    History m' rows'
    × KeepsRevisions plan [] rows'
    × (m'.version ≡ plan.version + 1)
    × (m'.content ≡ "write to them")
    × ((r : AgentMemoryRevision) × (first (is_current m') rows' ≡ some r)
        × (r.content ≡ "write to them")
        × (r.valid_from ≡ 9)
        × (r.valid_to ≡ none))
supersede_memory-History_example =
    supersede_memory-History 9 plan "write to them" "agent" 4 none "changed" [] tt

retire_run_working_memories-Ends_example :
    Ends
      (works_for_run 2)
      9
      "run ended"
      (plan ∷ [])
      (retire_run_working_memories 9 2 "run ended" (plan ∷ []))
retire_run_working_memories-Ends_example =
    retire_run_working_memories-Ends 9 2 "run ended" (plan ∷ [])
