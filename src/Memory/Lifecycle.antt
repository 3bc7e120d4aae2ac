-- ===== src/Memory/Lifecycle.antt =====
-- app/services/memory_lifecycle.py: the working memories of a run or a task end with it.
pub mod Ended
use careerops_agent.Shared.{
  ℕ, String, Bool, true, false, not, ◌&&◌, some, List, [], ◌∷◌, if◌then◌else◌, ◌==◌, Eq_nat,
  Eq_option,
}
use careerops_agent.Memory.Rows.{AgentMemory, retired, is_working, is_retired}

-- Whether the memory was retired now, and the memory. The database sets `updated_at` later, when it
-- writes the row.
unfoldable pub retire_memory : (now : ℕ) (reason : String) → AgentMemory → Bool × AgentMemory
retire_memory now reason memory = if is_retired memory.status then (false, memory) else (
  true,
  record memory { status = retired; retired_at = some now; retirement_reason = some reason },
)

-- The ids of the memories of the selection that were retired now, and the table.
pub retire_selected :
    (AgentMemory → Bool)
    → (now : ℕ) (reason : String) → List AgentMemory
    → List ℕ × List AgentMemory
unfolding retire_memory
retire_selected selects now reason [] = ([], [])
retire_selected selects now reason (m ∷ memories) =
    let (ids, rest) = retire_selected selects now reason memories in
    let (changed, after) = retire_memory now reason m in
    if selects m then (if changed then m.id ∷ ids else ids, after ∷ rest) else (ids, m ∷ rest)

-- The conditions of the two `select` statements.
abbrev pub works_for_run : (run_id : ℕ) → AgentMemory → Bool
works_for_run run_id m =
    m.run_id == some run_id && is_working m.memory_type && not (is_retired m.status)

abbrev pub works_for_task : (task_id : ℕ) → AgentMemory → Bool
works_for_task task_id m =
    m.task_id == some task_id && is_working m.memory_type && not (is_retired m.status)

unfoldable pub retire_run_working_memories :
    (now run_id : ℕ) (reason : String) → List AgentMemory → List ℕ × List AgentMemory
unfolding retire_selected
retire_run_working_memories now run_id reason memories =
    retire_selected (works_for_run run_id) now reason memories

unfoldable pub retire_task_working_memories :
    (now task_id : ℕ) (reason : String) → List AgentMemory → List ℕ × List AgentMemory
unfolding retire_selected
retire_task_working_memories now task_id reason memories =
    retire_selected (works_for_task task_id) now reason memories
