-- ===== src/Memory/Rows.antt =====
-- The rows of app/models.py for memories.
use careerops_agent.Shared.{ℕ, String, Bool, true, false, Option, List, ◌==◌, Eq_text}
use careerops_agent.Tool.Rows.{Json}

pub data MemoryType : Type 0 where
  working episodic fact : MemoryType

-- A column of text: `other` is any value but the three of the enumeration.
pub data MemoryScope : Type 0 where
  contract task run : MemoryScope
  other : String → MemoryScope

pub data MemoryStatus : Type 0 where
  active retired : MemoryStatus

abbrev pub is_working : MemoryType → Bool
is_working working = true
is_working _ = false

abbrev pub type_eq : MemoryType → MemoryType → Bool
type_eq working working = true
type_eq episodic episodic = true
type_eq fact fact = true
type_eq _ _ = false

abbrev pub scope_eq : MemoryScope → MemoryScope → Bool
scope_eq contract contract = true
scope_eq task task = true
scope_eq run run = true
scope_eq (other s) (other t) = s == t
scope_eq _ _ = false

abbrev pub is_retired : MemoryStatus → Bool
is_retired retired = true
is_retired active = false

pub record AgentMemory : Type 0 where
  pub id : ℕ
  pub goal_contract_id : ℕ
  pub scope_type : MemoryScope
  pub task_id : Option ℕ
  pub run_id : Option ℕ
  pub memory_type : MemoryType
  pub memory_key : String
  pub content : String
  pub source : String
  pub importance : ℕ
  pub version : ℕ
  pub status : MemoryStatus
  pub expires_at : Option ℕ
  pub retired_at : Option ℕ
  pub retirement_reason : Option String
  pub created_at : ℕ
  pub updated_at : ℕ

-- Identified by the columns of its unique constraint, the memory and the version.
pub record AgentMemoryRevision : Type 0 where
  pub memory_id : ℕ
  pub version : ℕ
  pub content : String
  pub source : String
  pub importance : ℕ
  pub provenance : Option Json
  pub change_reason : String
  pub valid_from : ℕ
  pub valid_to : Option ℕ

-- One evaluated candidate. The counts of the evaluator's calls are left out; `output` is what a
-- semantic evaluator said.
pub record MemoryCandidateRecord : Type 0 where
  pub goal_contract_id : ℕ
  pub task_id : ℕ
  pub source_run_id : Option ℕ
  pub scope_run_id : Option ℕ
  pub memory_id : Option ℕ
  pub memory_type : MemoryType
  pub scope_type : MemoryScope
  pub memory_key : String
  pub content : String
  pub source : String
  pub importance : ℕ
  pub provenance : Json
  pub decision : String
  pub storage_action : String
  pub reasons : List String
  pub evaluator_version : String
  pub evaluator_output : Option Json

-- `content_sha256` is left out.
pub record MemoryCleanupRecord : Type 0 where
  pub memory_id : ℕ
  pub removed_revision_count : ℕ
  pub cleaned_at : ℕ

-- The tables of memories. No memory is ever deleted, so the next primary key is one more than the
-- number of rows.
pub record MemoryDb : Type 0 where
  pub memories : List AgentMemory
  pub revisions : List AgentMemoryRevision
  pub candidates : List MemoryCandidateRecord
  pub cleanups : List MemoryCleanupRecord
