-- ===== src/Memory/Maintenance/Accounted.antt =====
-- app/services/memory_maintenance.py: what the maintenance of a task does to the table of memories.
use careerops_agent.Shared.{
  first-any, Bool, any, if◌then◌else◌, sym, subst, ◌⊎◌, keep, ltb, keep-All, keep_sound, All-both,
  All-weaken, ==_eq, some_inj, Eq_nat, Eq_option, ℕ, ◌≡◌, refl, true, ◌||◌, Option, none, some,
  List, [], ◌∷◌, All, map, first, arith, Bool-cases, inl, inr, ◌==◌, Eq_text,
}
use careerops_agent.Memory.Rows.{AgentMemory, MemoryDb, MemoryScope, scope_eq}
use careerops_agent.Context.Task.{PlannedTask}
use careerops_agent.Run.Rows.{TraceEntry}
use careerops_agent.Memory.Evaluation.{purged_payload}
use careerops_agent.Memory.Maintenance.{
  Retirement, retirements, kept_for, MaintenanceReport, has_id, retired_by, retire_all, purge_all,
  maintain_task_memories,
}
use careerops_agent.Memory.Maintenance.Justified.{IsJustified, retirements-IsJustified}

task_or_run :
    (scope : MemoryScope)
    → (scope_eq scope MemoryScope.task || scope_eq scope MemoryScope.run) ≡ true
    → (scope ≡ MemoryScope.task) ⊎ (scope ≡ MemoryScope.run)
task_or_run MemoryScope.contract h = cc
task_or_run MemoryScope.task h = inl refl
task_or_run MemoryScope.run h = inr refl
task_or_run (MemoryScope.other s) h = cc

-- A memory of the table that belongs to the task or to a run of it, under the task's contract.
abbrev pub IsOfTask : (table : AgentMemory → Type 0) → PlannedTask → AgentMemory → Type 0
IsOfTask table task m =
    table m
    × (m.goal_contract_id ≡ task.goal_contract_id)
    × (m.task_id ≡ some task.id)
    × ((m.scope_type ≡ MemoryScope.task) ⊎ (m.scope_type ≡ MemoryScope.run))

kept_for-IsOfTask :
    (table : AgentMemory → Type 0) (task : PlannedTask) (m : AgentMemory)
    → table m × (kept_for task m ≡ true)
    → IsOfTask table task m
kept_for-IsOfTask table task m (stored, kept) = (
  stored,
  ==_eq m.goal_contract_id task.goal_contract_id (ground (arith, kept)),
  ==_eq m.task_id (some task.id) (ground (arith, kept)),
  task_or_run m.scope_type (ground (arith, kept)),
)

module _ (P : AgentMemory → Type 0) (now : ℕ) where
  -- A memory after the maintenance is a stored one, whose status is as before unless the report names
  -- it.
  abbrev pub IsAccounted : List Retirement → AgentMemory → Type 0
  IsAccounted retire m' =
      (m : AgentMemory) × P m
      × (m'.id ≡ m.id)
      × ((m'.status ≡ m.status) ⊎ (any (λ r. r.memory_id == m.id) retire ≡ true))

  untouched-IsAccounted : (retire : List Retirement) (m : AgentMemory) → P m → IsAccounted retire m
  untouched-IsAccounted retire m p = (m, p, refl, inl refl)

  retired_by-IsAccounted :
      (retire : List Retirement) (m : AgentMemory) (found : Option Retirement)
      → first (λ r. r.memory_id == m.id) retire ≡ found
      → P m
      → IsAccounted retire (retired_by now found m)
  unfolding retired_by
  retired_by-IsAccounted retire m none e p = untouched-IsAccounted retire m p
  retired_by-IsAccounted retire m (some r) e p =
      (m, p, refl, inr (first-any (λ r. r.memory_id == m.id) retire e))

  retire_all-IsAccounted :
      (task : PlannedTask) (retire : List Retirement) (ms : List AgentMemory)
      → All P ms
      → All (IsAccounted retire) (retire_all now task retire ms)
  unfolding retire_all
  retire_all-IsAccounted task retire [] u = tt
  retire_all-IsAccounted task retire (m ∷ ms) (p, u) = elim (Bool-cases (kept_for task m)) [
    | inl t ↦ rw t (
      retired_by-IsAccounted retire m (first (λ r. r.memory_id == m.id) retire) refl p,
      retire_all-IsAccounted task retire ms u,
    )
    | inr f ↦ rw f (untouched-IsAccounted retire m p, retire_all-IsAccounted task retire ms u)
  ]

  purged-IsAccounted :
      (retire : List Retirement) (ids : List ℕ) (ms : List AgentMemory)
      → All (IsAccounted retire) ms
      → All
          (IsAccounted retire)
          (map (λ m. if has_id ids m.id then record m { content = purged_payload } else m) ms)
  purged-IsAccounted retire ids [] u = tt
  purged-IsAccounted retire ids (m ∷ ms) (a, u) = elim (Bool-cases (has_id ids m.id)) [
    | inl t ↦ rw t (a, purged-IsAccounted retire ids ms u)
    | inr f ↦ rw f (a, purged-IsAccounted retire ids ms u)
  ]

  -- What the report and the table are of a maintenance that raises nothing.
  abbrev Reports :
      PlannedTask → (episode_limit : ℕ) → MemoryDb → MaintenanceReport × MemoryDb → Type 0
  Reports task episode_limit db (report, db') =
      (report.retire ≡ retirements now episode_limit (keep (kept_for task) db.memories))
      × All (IsAccounted report.retire) db'.memories

  reported :
      (dry_run purge : Bool) (episode_limit retention_days : ℕ) (task : PlannedTask) (db : MemoryDb)
      {report : MaintenanceReport} {db' : MemoryDb} {traces : List TraceEntry}
      → All P db.memories
      → maintain_task_memories dry_run purge episode_limit retention_days now task db
        ≡ some (report, db', traces)
      → Reports task episode_limit db (report, db')
  unfolding maintain_task_memories purge_all
  reported dry_run purge episode_limit retention_days task db u h =
      let retire = retirements now episode_limit (keep (kept_for task) db.memories) in
      elim (Bool-cases (ltb episode_limit 1 || ltb retention_days 1)) [
        | inl t ↦ cc (rw t at h)
        | inr f ↦ elim (Bool-cases dry_run) [
          | inl t ↦
              subst (λ z. Reports task episode_limit db (z.0, z.1)) (some_inj (rw (f, t) at h))
                (
                  refl,
                  All-weaken P (IsAccounted retire) (untouched-IsAccounted retire) db.memories u,
                )
          | inr g ↦
              subst (λ z. Reports task episode_limit db (z.0, z.1)) (some_inj (rw (f, g) at h))
                (
                  refl,
                  purged-IsAccounted retire _ _ (retire_all-IsAccounted task retire db.memories u),
                )
        ]
      ]

  -- Each memory that the maintenance of a task reports as retired is a stored one of that task, or of
  -- a run of it, under the task's contract; it is active, and has expired or is an episode that the
  -- agent runtime wrote for the task, whatever the limits. Every memory of the table after it is a
  -- stored one, and only those that the report names have another status.
  pub maintain_task_memories-IsJustified :
      (dry_run purge : Bool) (episode_limit retention_days : ℕ) (task : PlannedTask) (db : MemoryDb)
      {report : MaintenanceReport} {db' : MemoryDb} {traces : List TraceEntry}
      → All P db.memories
      → maintain_task_memories dry_run purge episode_limit retention_days now task db
        ≡ some (report, db', traces)
      → All (IsJustified (IsOfTask P task) now) report.retire
        × All (IsAccounted report.retire) db'.memories
  maintain_task_memories-IsJustified dry_run purge episode_limit retention_days task db u h =
      let memories = keep (kept_for task) db.memories in
      let of_task = All-weaken _ (IsOfTask P task) (kept_for-IsOfTask P task) memories (
        All-both P (λ m. kept_for task m ≡ true) memories (keep-All P (kept_for task) db.memories u)
          (keep_sound (kept_for task) db.memories)) in
      let (same, accounted) = reported dry_run purge episode_limit retention_days task db u h in
      (
        subst (All (IsJustified (IsOfTask P task) now)) (sym same)
            (retirements-IsJustified (IsOfTask P task) now episode_limit memories of_task),
        accounted,
      )
