-- ===== src/Learning/Examples.antt =====
-- A learning plan for one demanded skill, its review, and a checkpoint from before there were versions.
use careerops_agent.Shared.{
  ◌≡◌, ◌⊎◌, refl, String, true, false, none, some, [], ◌∷◌, ok, value_error,
}
use careerops_agent.Context.Task.{PlannedTask}
use careerops_agent.Jobs.Rows.{JobDb, RequirementType}
use careerops_agent.Http.Responses.{reply, http_error}
use careerops_agent.Learning.Graph.{
  LearningSnapshot, start_learning_graph, resume_learning_graph, resume_review,
  invoke_learning_graph, first_learning_state,
}
use careerops_agent.Learning.Graph.Approved.{
  IsThread, starts, resumes, at_first, later, Reaches-IsThread, resume_learning_graph_once,
}
use careerops_agent.Learning.Routes.{LearningStore, resume_agent_learning_graph}
use careerops_agent.Learning.Routes.Settled.{IsReviewed, resume_agent_learning_graph-IsReviewed}

abbrev jobs : JobDb
jobs = record {
  jobs = [];
  archives = [];
  skills = record { id = 1; name = "MCP"; category = "agent_harness"; aliases = none } ∷ [];
  requirements =
      record {
        id = 1;
        job_id = 7;
        skill_id = 1;
        importance = 5;
        requirement_type = RequirementType.required;
        evidence_text = "MCP";
      }
      ∷ [];
}

abbrev task : PlannedTask
task = record {
  id = 4;
  goal_contract_id = 1;
  title = "learn";
  user_goal = "a job";
  constraints = [];
  success_criteria = "a plan" ∷ [];
  plan_steps = [];
}

abbrev waiting : LearningSnapshot
waiting = invoke_learning_graph jobs (first_learning_state task)

abbrev completed : LearningSnapshot
completed = resume_review true none waiting.values

start_returns : start_learning_graph jobs task none ≡ ok waiting
unfolding start_learning_graph
start_returns = refl

resume_returns : resume_learning_graph true none (some waiting) ≡ ok completed
unfolding resume_learning_graph invoke_learning_graph first_learning_state
resume_returns = refl

Reaches-IsThread_example : IsThread (some completed)
Reaches-IsThread_example =
    Reaches-IsThread task none tt
      (later (later at_first (starts jobs start_returns)) (resumes true none resume_returns))

resume_learning_graph_once_example :
    resume_learning_graph false none (some completed)
    ≡ value_error "learning graph is not waiting for approval"
resume_learning_graph_once_example =
    resume_learning_graph_once true false none none (some waiting) resume_returns

abbrev store : LearningStore
store = record {
  current = some waiting;
  status = "waiting_for_approval";
  completed_at = none;
  memories = [];
  traces = [];
}

waiting-IsThread : IsThread (some waiting)
waiting-IsThread = Reaches-IsThread task none tt (later at_first (starts jobs start_returns))

resume_agent_learning_graph-IsReviewed_example :
    (let answer = resume_agent_learning_graph 9 (some task) true none store in
      ((s : LearningSnapshot) × (answer.0 ≡ reply s) × IsReviewed 9 4 true store answer.1 s)
      ⊎ ((detail : String) × (answer.0 ≡ http_error 409 detail) × (answer.1 ≡ store)))
resume_agent_learning_graph-IsReviewed_example =
    resume_agent_learning_graph-IsReviewed 9 task true none store waiting-IsThread
