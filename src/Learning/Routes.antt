-- ===== src/Learning/Routes.antt =====
-- The routes of app/main.py for the learning graph of a task.
pub mod Settled
use Prim.Native.String.{◌++◌ as concat}
use careerops_agent.Shared.{
  ℕ, String, Bool, true, false, Option, none, some, List, [], ◌∷◌, ◌++◌, is_some, if◌then◌else◌,
  ◌==◌, Eq_text, Exception, Result, ok, raised,
}
use careerops_agent.Context.Task.{PlannedTask}
use careerops_agent.Jobs.Rows.{JobDb}
use careerops_agent.Memory.Rows.{AgentMemory}
use careerops_agent.Memory.Lifecycle.{retire_task_working_memories}
use careerops_agent.Http.Responses.{Response, reply, http_error}
use careerops_agent.Learning.Graph.{
  CareerOpsState, LearningSnapshot, start_learning_graph, resume_learning_graph,
}

-- A trace of the routes: its event type and its summaries.
pub record LearningTrace : Type 0 where
  pub event_type : String
  pub input_summary : String
  pub output_summary : String

-- The thread of a task, the columns of the task that change, the memories and the traces.
pub record LearningStore : Type 0 where
  pub current : Option LearningSnapshot
  pub status : String
  pub completed_at : Option ℕ
  pub memories : List AgentMemory
  pub traces : List LearningTrace

abbrev Answer : Type 0
Answer = Response LearningSnapshot × LearningStore

-- The task's columns and memories after a graph that came to this status.
pub settled : (now task_id : ℕ) (status : String) → LearningStore → LearningStore
unfolding retire_task_working_memories
settled now task_id status st = record st {
  status = status;
  completed_at = if status == "completed" then some now else none;
  memories =
      if status == "completed"
      then (retire_task_working_memories now task_id "agent_task_completed" st.memories).1
      else st.memories;
}

abbrev add_trace :
    (event_type input_summary output_summary : String) → LearningStore → LearningStore
add_trace event_type input_summary output_summary st = record st {
  traces =
      st.traces
      ++ record {
        event_type = event_type;
        input_summary = input_summary;
        output_summary = output_summary;
      }
        ∷ [];
}

abbrev finished_status : CareerOpsState → String
finished_status w = if w.status == "completed" then "completed" else "blocked"

pub started : (now task_id : ℕ) → LearningStore → Result LearningSnapshot → Answer
unfolding settled
started now task_id st (raised x) = (http_error 409 x.text, st)
started now task_id st (ok s) =
    let awaiting = is_some s.interrupt in
    let status = if awaiting then "waiting_for_approval" else finished_status s.values in
    (
      reply s,
      add_trace "evaluation" "Run the deterministic LangGraph learning-plan workflow."
          (if awaiting
            then "Graph paused for user approval."
            else concat "Graph finished with status " (concat s.values.status "."))
          (settled now task_id status (record st { current = some s })),
    )

pub resumed : (now task_id : ℕ) (approved : Bool) → LearningStore → Result LearningSnapshot → Answer
unfolding settled
resumed now task_id approved st (raised x) = (http_error 409 x.text, st)
resumed now task_id approved st (ok s) = (
  reply s,
  add_trace "user_input"
      (if approved
        then "User approved the generated learning plan."
        else "User rejected the generated learning plan.")
      (concat "Graph resumed and finished with status " (concat s.values.status "."))
      (settled now task_id (finished_status s.values) (record st { current = some s })),
)

-- `run_agent_learning_graph`, of the task that its id names.
unfoldable pub run_agent_learning_graph :
    (now : ℕ) → JobDb → Option PlannedTask → LearningStore → Answer
unfolding started start_learning_graph
run_agent_learning_graph now db none st = (http_error 404 "agent task not found", st)
run_agent_learning_graph now db (some task) st =
    started now task.id st (start_learning_graph db task st.current)

-- `resume_agent_learning_graph`
unfoldable pub resume_agent_learning_graph :
    (now : ℕ)
    → Option PlannedTask
    → (approved : Bool) (comment : Option String) → LearningStore
    → Answer
unfolding resumed resume_learning_graph
resume_agent_learning_graph now none approved comment st =
    (http_error 404 "agent task not found", st)
resume_agent_learning_graph now (some task) approved comment st =
    resumed now task.id approved st (resume_learning_graph approved comment st.current)
