-- ===== src/Jobs/Roadmap.antt =====
-- app/services/roadmap.py: what to learn for the skills that jobs demand.
pub mod Ranks
use Prim.Native.String.{◌++◌ as concat}
use careerops_agent.Shared.{ℕ, suc, ◌+◌, String, List, [], ◌∷◌, ◌++◌, length, take, lookup, or_else}
use careerops_agent.Shared.Text.{decimal}
use careerops_agent.Jobs.Analytics.{SkillDemand}
use careerops_agent.Jobs.Templates.{RoadmapTemplate, default_template, roadmap_templates}
use careerops_agent.Jobs.Criteria.{project_acceptance_criteria}

pub record RoadmapItem : Type 0 where
  pub rank : ℕ
  pub skill_id : ℕ
  pub skill : String
  pub category : String
  pub job_count : ℕ
  pub requirement_count : ℕ
  pub why : String
  pub learning_goal : String
  pub project_idea : String
  pub evidence : String

pub roadmap_item : (rank : ℕ) → SkillDemand → RoadmapItem
unfolding decimal default_template roadmap_templates
roadmap_item rank d =
    let template = or_else (lookup d.name roadmap_templates) default_template in
    record {
      rank = rank;
      skill_id = d.skill_id;
      skill = d.name;
      category = d.category;
      job_count = d.job_count;
      requirement_count = d.requirement_count;
      why = concat "Appears in " (
          concat (decimal d.job_count) (
            concat " job(s) and "
              (concat (decimal d.requirement_count) " extracted requirement(s).")));
      learning_goal = template.learning_goal;
      project_idea = template.project_idea;
      evidence = template.evidence;
    }

pub roadmap_from : (rank : ℕ) → List SkillDemand → List RoadmapItem
unfolding roadmap_item
roadmap_from rank [] = []
roadmap_from rank (d ∷ ds) = roadmap_item rank d ∷ roadmap_from (suc rank) ds

unfoldable pub build_learning_roadmap :
    (skill_demand : List SkillDemand) (limit : ℕ) → List RoadmapItem
unfolding roadmap_from
build_learning_roadmap skill_demand limit = roadmap_from 1 (take limit skill_demand)

pub record LearningTask : Type 0 where
  pub rank : ℕ
  pub skill_id : ℕ
  pub skill : String
  pub task_type : String
  pub title : String
  pub why : String
  pub acceptance_criteria : List String
  pub deliverable : String

pub project_task : (rank : ℕ) → RoadmapItem → LearningTask
unfolding project_acceptance_criteria
project_task rank item = record {
  rank = rank;
  skill_id = item.skill_id;
  skill = item.skill;
  task_type = "project";
  title = concat "Build: " item.project_idea;
  why = item.why;
  acceptance_criteria = project_acceptance_criteria item.skill;
  deliverable = item.evidence;
}

pub evidence_task : (rank : ℕ) → RoadmapItem → LearningTask
evidence_task rank item = record {
  rank = rank;
  skill_id = item.skill_id;
  skill = item.skill;
  task_type = "evidence";
  title = concat "Document evidence for " item.skill;
  why = "Job applications need visible proof, not only private learning.";
  acceptance_criteria =
      "README explains the job requirement this project targets."
      ∷ "README includes setup and run instructions."
      ∷ "A short demo trace or screenshot shows the feature working."
      ∷ "Tests or validation steps are documented." ∷ [];
  deliverable = "Portfolio-ready README section plus demo trace.";
}

-- The loop, on the tasks so far. Both ranks are computed before the list is extended.
pub extend_tasks : (tasks : List LearningTask) → List RoadmapItem → List LearningTask
unfolding project_task evidence_task
extend_tasks tasks [] = tasks
extend_tasks tasks (item ∷ items) =
    extend_tasks
      (tasks ++ project_task (length tasks + 1) item ∷ evidence_task (length tasks + 2) item ∷ [])
      items

unfoldable pub build_learning_tasks :
    (skill_demand : List SkillDemand) (limit : ℕ) → List LearningTask
unfolding extend_tasks build_learning_roadmap
build_learning_tasks skill_demand limit =
    extend_tasks [] (build_learning_roadmap skill_demand limit)
