-- ===== src/Learning/Graph.antt =====
-- app/services/learning_graph.py. The graph library runs a node, merges what it returns into the state,
-- keeps a snapshot and goes on along the edges, up to the end or an interrupt.
pub mod Migration
pub mod Approved
pub mod Decided
use Prim.Native.String.{◌++◌ as concat}
use careerops_agent.Shared.{
  ℕ, String, Bool, true, false, not, ◌||◌, Option, none, some, List, [], ◌∷◌, ◌++◌, take, length,
  is_some, is_none, if◌then◌else◌, ◌==◌, Eq_nat, Eq_text, Exception, Result, ok, raised,
  value_error, map,
}
use careerops_agent.Checkpoints.{
  unversioned_checkpoint, checkpoint_version, checkpoint_version_error, require_checkpoint_version,
  require_explicit_source_version,
}
use careerops_agent.Context.Task.{PlannedTask}
use careerops_agent.Jobs.Rows.{JobDb}
use careerops_agent.Jobs.Analytics.{SkillDemand, skill_demand_rows}
use careerops_agent.Jobs.Roadmap.{RoadmapItem, build_learning_roadmap}

abbrev pub learning_graph_version : String
learning_graph_version = "learning-plan-v1"

-- An absent version is `none`.
pub record CareerOpsState : Type 0 where
  pub graph_version : Option String
  pub task_id : ℕ
  pub user_goal : String
  pub success_criteria : List String
  pub top_skills : List SkillDemand
  pub learning_plan : List RoadmapItem
  pub validation_errors : List String
  pub approved : Option Bool
  pub approval_comment : Option String
  pub status : String
  pub node_history : List String

pub data LearningNode : Type 0 where
  load_skill_demand build_plan validate_plan human_review complete_run block_run : LearningNode

abbrev visited : (node status : String) → CareerOpsState → CareerOpsState
visited node status w = record w { status = status; node_history = w.node_history ++ node ∷ [] }

unfoldable pub load_skill_demand_node : JobDb → CareerOpsState → CareerOpsState
unfolding skill_demand_rows
load_skill_demand_node db w =
    visited "load_skill_demand" "skills_loaded"
      (record w { top_skills = take 3 (skill_demand_rows db) })

unfoldable pub build_plan_node : CareerOpsState → CareerOpsState
unfolding build_learning_roadmap
build_plan_node w =
    visited "build_plan" "plan_built"
      (record w { learning_plan = build_learning_roadmap w.top_skills 3 })

abbrev pub is_empty {ℓ} : {A : Type ℓ} → List A → Bool
is_empty [] = true
is_empty (x ∷ xs) = false

abbrev pub plan_errors : CareerOpsState → List String
plan_errors w =
    (if is_empty w.top_skills then "No parsed JD skills are available." ∷ [] else [])
    ++ ((if is_empty w.learning_plan then "No learning plan was generated." ∷ [] else [])
        ++ (if is_empty w.success_criteria
            then "The Agent task has no success criteria." ∷ []
            else []))

unfoldable pub validate_plan_node : CareerOpsState → CareerOpsState
validate_plan_node w =
    let errors = plan_errors w in
    visited "validate_plan" (if is_empty errors then "plan_validated" else "validation_failed")
      (record w { validation_errors = errors })

unfoldable pub complete_run_node : CareerOpsState → CareerOpsState
complete_run_node w = visited "complete_run" "completed" w

unfoldable pub block_run_node : CareerOpsState → CareerOpsState
block_run_node w = visited "block_run" "blocked" w

-- After the interrupt, with the decision that resumes it.
unfoldable pub human_review_node :
    (approved : Bool) (comment : Option String) → CareerOpsState → CareerOpsState
human_review_node approved comment w =
    visited "human_review" (if approved then "approved" else "rejected")
      (record w { approved = some approved; approval_comment = comment })

abbrev pub route_after_validation : CareerOpsState → LearningNode
route_after_validation w = if is_empty w.validation_errors then human_review else block_run

abbrev pub is_approved : Option Bool → Bool
is_approved none = false
is_approved (some b) = b

abbrev pub route_after_review : CareerOpsState → LearningNode
route_after_review w = if is_approved w.approved then complete_run else block_run

-- The payload of the interrupt.
pub record ReviewRequest : Type 0 where
  pub question : String
  pub task_id : ℕ
  pub learning_plan : List RoadmapItem

pub record LearningSnapshot : Type 0 where
  pub values : CareerOpsState
  pub next : List LearningNode
  pub interrupt : Option ReviewRequest

abbrev pub ended : CareerOpsState → LearningSnapshot
ended w = record { values = w; next = []; interrupt = none }

unfoldable pub awaiting_review : CareerOpsState → LearningSnapshot
awaiting_review w = record {
  values = w;
  next = human_review ∷ [];
  interrupt = some (record {
    question = "Do you approve this JD-driven learning plan?";
    task_id = w.task_id;
    learning_plan = w.learning_plan;
  });
}

-- The graph from the edges of `validate_plan` on, and from those of `human_review` on.
unfoldable pub after_validation : LearningNode → CareerOpsState → LearningSnapshot
unfolding awaiting_review block_run_node
after_validation human_review w = awaiting_review w
after_validation _ w = ended (block_run_node w)

unfoldable pub after_review : LearningNode → CareerOpsState → LearningSnapshot
unfolding complete_run_node block_run_node
after_review complete_run w = ended (complete_run_node w)
after_review _ w = ended (block_run_node w)

unfoldable pub invoke_learning_graph : JobDb → CareerOpsState → LearningSnapshot
unfolding load_skill_demand_node build_plan_node validate_plan_node after_validation
invoke_learning_graph db w =
    let w' = validate_plan_node (build_plan_node (load_skill_demand_node db w)) in
    after_validation (route_after_validation w') w'

unfoldable pub resume_review :
    (approved : Bool) (comment : Option String) → CareerOpsState → LearningSnapshot
unfolding human_review_node after_review
resume_review approved comment w =
    let w' = human_review_node approved comment w in after_review (route_after_review w') w'

unfoldable pub first_learning_state : PlannedTask → CareerOpsState
first_learning_state task = record {
  graph_version = some learning_graph_version;
  task_id = task.id;
  user_goal = task.user_goal;
  success_criteria = task.success_criteria;
  top_skills = [];
  learning_plan = [];
  validation_errors = [];
  approved = none;
  approval_comment = none;
  status = "started";
  node_history = [];
}

abbrev pub if_compatible :
    (mismatch : Option String) → Result LearningSnapshot → Result LearningSnapshot
if_compatible none result = result
if_compatible (some text) result = raised (checkpoint_version_error text)

-- `start_learning_graph`, of the last snapshot of the task's thread: the snapshot after it, which
-- `_graph_result` reads.
unfoldable pub start_learning_graph :
    JobDb → PlannedTask → (current : Option LearningSnapshot) → Result LearningSnapshot
unfolding require_checkpoint_version invoke_learning_graph first_learning_state
start_learning_graph db task none = ok (invoke_learning_graph db (first_learning_state task))
start_learning_graph db task (some s) =
    if_compatible
      (require_checkpoint_version "learning graph" learning_graph_version s.values.graph_version)
      (ok s)

abbrev not_waiting : Result LearningSnapshot
not_waiting = value_error "learning graph is not waiting for approval"

-- `resume_learning_graph`
unfoldable pub resume_learning_graph :
    (approved : Bool) (comment : Option String)
    → (current : Option LearningSnapshot) → Result LearningSnapshot
unfolding require_checkpoint_version resume_review
resume_learning_graph approved comment none = not_waiting
resume_learning_graph approved comment (some s) =
    if is_none s.interrupt
    then not_waiting
    else if_compatible
        (require_checkpoint_version "learning graph" learning_graph_version s.values.graph_version)
        (ok (resume_review approved comment s.values))
