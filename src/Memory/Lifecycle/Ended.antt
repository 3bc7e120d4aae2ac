-- ===== src/Memory/Lifecycle/Ended.antt =====
-- What is left after working memories were retired.
use careerops_agent.Shared.{
  ℕ, String, ◌≡◌, refl, Bool, true, false, some, List, [], ◌∷◌, keep, map, update_where, arith,
  Bool-cases, inl, inr, ap,
}
use careerops_agent.Memory.Rows.{AgentMemory, retired, is_retired}
use careerops_agent.Memory.Lifecycle.{
  retire_memory, retire_selected, works_for_run, works_for_task, retire_run_working_memories,
  retire_task_working_memories,
}

abbrev ended : (now : ℕ) (reason : String) → AgentMemory → AgentMemory
ended now reason m = record m {
  status = retired;
  retired_at = some now;
  retirement_reason = some reason;
}

-- The ids are those of the selected rows, the selected rows are retired and no other row changes,
-- and no row is selected any more.
abbrev pub Ends :
    (AgentMemory → Bool)
    → (now : ℕ) (reason : String) → List AgentMemory
    → List ℕ × List AgentMemory
    → Type 0
Ends selects now reason memories (ids, after) =
    (ids ≡ map (λ m. m.id) (keep selects memories))
    × (after ≡ update_where selects (ended now reason) memories)
    × (keep selects after ≡ [])

module _ (selects : AgentMemory → Bool) (now : ℕ) (reason : String)
    (live : (m : AgentMemory) → selects m ≡ true → is_retired m.status ≡ false)
    (over : (m : AgentMemory) → selects (ended now reason m) ≡ false) where
  retire_selected-Ends :
      (memories : List AgentMemory)
      → Ends selects now reason memories (retire_selected selects now reason memories)
  unfolding retire_selected retire_memory
  retire_selected-Ends [] = (refl, refl, refl)
  retire_selected-Ends (m ∷ memories) =
      let (ids, after, none_left) = retire_selected-Ends memories in
      elim (Bool-cases (selects m)) [
        | inl t ↦
            rw (t, live m t, over m)
              (ap (◌∷◌ m.id) ids, ap (◌∷◌ (ended now reason m)) after, none_left)
        | inr f ↦ rw f (ids, ap (◌∷◌ m) after, rw f none_left)
      ]

-- When a run ends, its active working memories are retired and reported, no other memory changes,
-- and none of them is left.
pub retire_run_working_memories-Ends :
    (now run_id : ℕ) (reason : String) (memories : List AgentMemory)
    → Ends
        (works_for_run run_id)
        now
        reason
        memories
        (retire_run_working_memories now run_id reason memories)
unfolding retire_run_working_memories
retire_run_working_memories-Ends now run_id reason memories =
    retire_selected-Ends (works_for_run run_id) now reason (λ m h. ground arith) (λ m. ground arith)
      memories

-- When a task ends, its active working memories are retired and reported, no other memory changes,
-- and none of them is left.
pub retire_task_working_memories-Ends :
    (now task_id : ℕ) (reason : String) (memories : List AgentMemory)
    → Ends
        (works_for_task task_id)
        now
        reason
        memories
        (retire_task_working_memories now task_id reason memories)
unfolding retire_task_working_memories
retire_task_working_memories-Ends now task_id reason memories =
    retire_selected-Ends (works_for_task task_id) now reason (λ m h. ground arith)
      (λ m. ground arith) memories
