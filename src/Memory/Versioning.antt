-- ===== src/Memory/Versioning.antt =====
-- app/services/memory_versioning.py: each change of a memory closes a revision and opens the next.
pub mod History
use careerops_agent.Shared.{
  ℕ, suc, ◌+◌, String, Bool, ◌&&◌, Option, none, some, List, [], ◌∷◌, ◌++◌, length, first,
  update_where, ◌==◌, Eq_nat,
}
use careerops_agent.Tool.Rows.{Json}
use careerops_agent.Memory.Rows.{AgentMemory, AgentMemoryRevision}

unfoldable pub initial_revision : AgentMemory → (provenance : Option Json) → AgentMemoryRevision
initial_revision memory provenance = record {
  memory_id = memory.id;
  version = memory.version;
  content = memory.content;
  source = memory.source;
  importance = memory.importance;
  provenance = provenance;
  change_reason = "created";
  valid_from = memory.created_at;
  valid_to = none;
}

unfoldable pub record_initial_memory_version :
    AgentMemory
    → (provenance : Option Json) → List AgentMemoryRevision
    → AgentMemoryRevision × List AgentMemoryRevision
unfolding initial_revision
record_initial_memory_version memory provenance revisions =
    let revision = initial_revision memory provenance in (revision, revisions ++ revision ∷ [])

-- The columns of the unique constraint.
abbrev pub is_current : AgentMemory → AgentMemoryRevision → Bool
is_current memory r = r.memory_id == memory.id && r.version == memory.version

abbrev pub closed : ℕ → AgentMemoryRevision → AgentMemoryRevision
closed now r = record r { valid_to = some now }

-- `current.valid_to = now`, on the revision found or else on a first one made now. The constraint
-- makes the row with these columns unique.
unfoldable pub close_current :
    Option AgentMemoryRevision
    → AgentMemory
    → (now : ℕ) → List AgentMemoryRevision
    → List AgentMemoryRevision
unfolding record_initial_memory_version
close_current (some current) memory now revisions =
    update_where (is_current memory) (closed now) revisions
close_current none memory now revisions =
    update_where (is_current memory) (closed now)
      (record_initial_memory_version memory none revisions).1

abbrev pub next_revision :
    AgentMemory
    → (now : ℕ) (content source : String) (importance : ℕ) (provenance : Option Json)
      (reason : String)
    → AgentMemoryRevision
next_revision memory now content source importance provenance reason = record {
  memory_id = memory.id;
  version = memory.version + 1;
  content = content;
  source = source;
  importance = importance;
  provenance = provenance;
  change_reason = reason;
  valid_from = now;
  valid_to = none;
}

-- The memory and the revisions after the change.
unfoldable pub supersede_memory :
    (now : ℕ)
    → AgentMemory
    → (content source : String) (importance : ℕ) (provenance : Option Json) (reason : String)
    → List AgentMemoryRevision
    → AgentMemory × List AgentMemoryRevision
unfolding close_current
supersede_memory now memory content source importance provenance reason revisions =
    let before = close_current (first (is_current memory) revisions) memory now revisions in
    (
      record memory {
        version = memory.version + 1;
        content = content;
        source = source;
        importance = importance;
        updated_at = now;
      },
      before ++ next_revision memory now content source importance provenance reason ∷ [],
    )
