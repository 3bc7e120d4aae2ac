-- ===== src/Memory/Maintenance.antt =====
-- app/services/memory_maintenance.py: the memories of a task expire, and repeated or superfluous
-- episodes are retired.
pub mod Accounted
pub mod Justified
use Prim.Native.String.{◌++◌ as concat}
use careerops_agent.Shared.{
  ℕ, ◌+◌, ◌-◌, ◌*◌, String, Bool, true, false, not, ◌&&◌, ◌||◌, Option, none, some, List, [], ◌∷◌,
  ◌++◌, any, first, keep, map, drop, length, ltb, leb, is_none, is_some, if◌then◌else◌, ◌==◌,
  Eq_nat, Eq_text, Eq_option,
}
use careerops_agent.Shared.Text.{decimal}
use careerops_agent.Run.Rows.{TraceEntry}
use careerops_agent.Context.Task.{PlannedTask}
use careerops_agent.Memory.Rows.{
  MemoryScope, scope_eq, episodic, fact, type_eq, retired, is_retired, AgentMemory,
  AgentMemoryRevision, MemoryCandidateRecord, MemoryCleanupRecord, MemoryDb,
}
use careerops_agent.Memory.Evaluation.{purged_payload}

-- An entry of the dictionary `retire`.
pub record Retirement : Type 0 where
  pub memory_id : ℕ
  pub reason : String
  pub representative_id : Option ℕ

-- The variables of the loop over the sorted memories. The keys of the dictionary
-- `representatives` are the contents of the episodes.
pub record Pass : Type 0 where
  pub retire : List Retirement
  pub episodes : List AgentMemory

-- `key=lambda m: (-m.importance, -m.id)`
abbrev pub goes_before : AgentMemory → AgentMemory → Bool
goes_before m n = ltb n.importance m.importance || (m.importance == n.importance && leb n.id m.id)

pub insert_ranked : AgentMemory → List AgentMemory → List AgentMemory
insert_ranked m [] = m ∷ []
insert_ranked m (n ∷ ms) =
    let rest = insert_ranked m ms in if goes_before m n then m ∷ n ∷ ms else n ∷ rest

pub ranked : List AgentMemory → List AgentMemory
unfolding insert_ranked
ranked [] = []
ranked (m ∷ ms) = insert_ranked m (ranked ms)

-- The `where` of the query.
abbrev pub kept_for : PlannedTask → AgentMemory → Bool
kept_for task m =
    m.goal_contract_id == task.goal_contract_id
    && m.task_id == some task.id
    && (scope_eq m.scope_type MemoryScope.task || scope_eq m.scope_type MemoryScope.run)

abbrev pub has_expired : (now : ℕ) → AgentMemory → Bool
has_expired now m = elim m.expires_at [ none ↦ false | some t ↦ leb t now ]

abbrev pub is_runtime_episode : AgentMemory → Bool
is_runtime_episode m =
    type_eq m.memory_type episodic
    && m.source == "agent_runtime"
    && scope_eq m.scope_type MemoryScope.task

abbrev pub retire_as : (reason : String) → Option ℕ → AgentMemory → Retirement
retire_as reason representative m = record {
  memory_id = m.id;
  reason = reason;
  representative_id = representative;
}

pub repeat_or_new : Option AgentMemory → AgentMemory → Pass → Pass
repeat_or_new (some r) m pass = record pass {
  retire = pass.retire ++ retire_as "duplicate_episode" (some r.id) m ∷ [];
}
repeat_or_new none m pass = record pass { episodes = pass.episodes ++ m ∷ [] }

pub visit : (now : ℕ) → AgentMemory → Pass → Pass
unfolding repeat_or_new
visit now m pass =
    if is_retired m.status
    then pass
    else if has_expired now m
    then record pass { retire = pass.retire ++ retire_as "expired" none m ∷ [] }
    else if is_runtime_episode m
    then repeat_or_new (first (λ e. e.content == m.content) pass.episodes) m pass
    else pass

pub visit_all : (now : ℕ) → List AgentMemory → Pass → Pass
unfolding visit
visit_all now [] pass = pass
visit_all now (m ∷ ms) pass = visit_all now ms (visit now m pass)

unfoldable pub retirements : (now episode_limit : ℕ) → List AgentMemory → List Retirement
unfolding visit_all ranked
retirements now episode_limit memories =
    let pass = visit_all now (ranked memories) (record { retire = []; episodes = [] }) in
    pass.retire ++ map (retire_as "episode_capacity" none) (drop episode_limit pass.episodes)

abbrev pub day : ℕ
day = 86400

-- `cleanup`
abbrev pub is_purged : (now retention_days : ℕ) → List MemoryCleanupRecord → AgentMemory → Bool
is_purged now retention_days cleaned m =
    is_retired m.status
    && elim m.retired_at [ none ↦ false | some t ↦ leb (t + retention_days * day) now ]
    && not (type_eq m.memory_type fact)
    && not (any (λ r. r.memory_id == m.id) cleaned)

pub record MaintenanceReport : Type 0 where
  pub task_id : ℕ
  pub dry_run : Bool
  pub episode_limit : ℕ
  pub retention_days : ℕ
  pub retire : List Retirement
  pub purge_memory_ids : List ℕ

abbrev pub has_id : List ℕ → ℕ → Bool
has_id ids i = any (λ j. j == i) ids

pub retired_by : (now : ℕ) → Option Retirement → AgentMemory → AgentMemory
retired_by now none m = m
retired_by now (some r) m = record m {
  status = retired;
  retired_at = some now;
  retirement_reason = some r.reason;
}

-- `if memory.id in retire`, for each memory of the query
pub retire_all : (now : ℕ) → PlannedTask → List Retirement → List AgentMemory → List AgentMemory
unfolding retired_by
retire_all now task retire [] = []
retire_all now task retire (m ∷ ms) =
    (if kept_for task m then retired_by now (first (λ r. r.memory_id == m.id) retire) m else m)
    ∷ retire_all now task retire ms

abbrev cleanup_record : (now : ℕ) → List AgentMemoryRevision → ℕ → MemoryCleanupRecord
cleanup_record now revisions i = record {
  memory_id = i;
  removed_revision_count = length (keep (λ r. r.memory_id == i) revisions);
  cleaned_at = now;
}

abbrev is_of : List ℕ → Option ℕ → Bool
is_of ids none = false
is_of ids (some i) = has_id ids i

purged_candidate : List ℕ → MemoryCandidateRecord → MemoryCandidateRecord
purged_candidate ids c =
    if is_of ids c.memory_id
    then record c { content = purged_payload; evaluator_output = none }
    else c

purge_all : (now : ℕ) (ids : List ℕ) → MemoryDb → MemoryDb
unfolding purged_candidate
purge_all now ids db = record {
  memories =
      map (λ m. if has_id ids m.id then record m { content = purged_payload } else m) db.memories;
  revisions = keep (λ r. not (has_id ids r.memory_id)) db.revisions;
  candidates = map (purged_candidate ids) db.candidates;
  cleanups = db.cleanups ++ map (cleanup_record now db.revisions) ids;
}

abbrev is_nil {ℓ} : {A : Type ℓ} → List A → Bool
is_nil [] = true
is_nil (x ∷ xs) = false

abbrev maintained : (task_id ended purged : ℕ) → TraceEntry
maintained task_id ended purged = record {
  task_id = task_id;
  event_type = "memory_maintenance";
  status = "completed";
  input_summary = "Apply task-local Memory retention policy.";
  output_summary =
      concat "Retired "
        (concat (decimal ended) (concat "; purged " (concat (decimal purged) " payloads.")));
}

-- `none` is the `ValueError`. The last part are the traces that it adds.
unfoldable pub maintain_task_memories :
    (dry_run purge : Bool) (episode_limit retention_days now : ℕ)
    → PlannedTask
    → MemoryDb
    → Option (MaintenanceReport × MemoryDb × List TraceEntry)
unfolding retirements retire_all purge_all decimal
maintain_task_memories dry_run purge episode_limit retention_days now task db =
    let memories = keep (kept_for task) db.memories in
    let retire = retirements now episode_limit memories in
    let cleanup =
      map (λ m. m.id) (keep (λ m. purge && is_purged now retention_days db.cleanups m) memories) in
    let report : MaintenanceReport = record {
      task_id = task.id;
      dry_run = dry_run;
      episode_limit = episode_limit;
      retention_days = retention_days;
      retire = retire;
      purge_memory_ids = cleanup;
    } in
    if ltb episode_limit 1 || ltb retention_days 1
    then none
    else if dry_run
    then some (report, db, [])
    else some (
      report,
      purge_all now cleanup (record db { memories = retire_all now task retire db.memories }),
      if is_nil retire && is_nil cleanup
          then []
          else maintained task.id (length retire) (length cleanup) ∷ [],
    )
