-- ===== src/Jobs/Rows.antt =====
-- The rows of app/models.py for jobs, skills and archived job descriptions.
use careerops_agent.Shared.{ℕ, String, Option, List}
use careerops_agent.Tool.Rows.{Json}

pub record Job : Type 0 where
  pub id : ℕ
  pub company : String
  pub title : String
  pub location : String
  pub source_url : String
  pub description : String
  pub published_at : Option ℕ
  pub created_at : ℕ

pub data ArchiveStatus : Type 0 where
  archived duplicate parsed : ArchiveStatus

pub record JobArchive : Type 0 where
  pub id : ℕ
  pub source_id : Option ℕ
  pub job_id : Option ℕ
  pub source_url : String
  pub canonical_url : String
  pub content_hash : String
  pub raw_content : String
  pub structured_data : Option Json
  pub status : ArchiveStatus
  pub fetched_at : ℕ
  pub parsed_at : Option ℕ

pub record Skill : Type 0 where
  pub id : ℕ
  pub name : String
  pub category : String
  pub aliases : Option String

pub data RequirementType : Type 0 where
  required preferred : RequirementType

pub record JobRequirement : Type 0 where
  pub id : ℕ
  pub job_id : ℕ
  pub skill_id : ℕ
  pub importance : ℕ
  pub requirement_type : RequirementType
  pub evidence_text : String

-- The tables of jobs.
pub record JobDb : Type 0 where
  pub jobs : List Job
  pub archives : List JobArchive
  pub skills : List Skill
  pub requirements : List JobRequirement
