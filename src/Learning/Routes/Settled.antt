-- ===== src/Learning/Routes/Settled.antt =====
-- The routes of app/main.py for the learning graph: what a review does to its task.
use careerops_agent.Shared.{
  ℕ, ◌≡◌, ◌⊎◌, inl, inr, refl, String, Bool, true, false, Option, none, some, [], keep, Result, ok,
  raised,
}
use careerops_agent.Context.Task.{PlannedTask}
use careerops_agent.Memory.Lifecycle.{works_for_task}
use careerops_agent.Memory.Lifecycle.Ended.{retire_task_working_memories-Ends}
use careerops_agent.Http.Responses.{Response, reply, http_error}
use careerops_agent.Learning.Graph.{LearningSnapshot, resume_learning_graph}
use careerops_agent.Learning.Graph.Approved.{IsWhole, IsThread, resumed-IsWhole}
use careerops_agent.Learning.Graph.Decided.{outcome, resumed_status}
use careerops_agent.Learning.Routes.{LearningStore, resumed, settled, resume_agent_learning_graph}

-- What a review has done to its task: an approved plan was whole, its task is completed now and has
-- no working memory left; a rejected one leaves its task blocked, with its memories.
abbrev pub IsReviewed :
    (now task_id : ℕ) (approved : Bool) (before after : LearningStore) → LearningSnapshot → Type 0
IsReviewed now task_id true before after s =
    IsWhole s.values
    × (after.status ≡ "completed")
    × (after.completed_at ≡ some now)
    × (keep (works_for_task task_id) after.memories ≡ [])
IsReviewed now task_id false before after s =
    (after.status ≡ "blocked") × (after.completed_at ≡ none) × (after.memories ≡ before.memories)

resumed-IsReviewed :
    (now task_id : ℕ) (approved : Bool) (st : LearningStore) (s : LearningSnapshot)
    → s.values.status ≡ outcome approved
    → (s.values.status ≡ "completed" → IsWhole s.values)
    → IsReviewed now task_id approved st (resumed now task_id approved st (ok s)).1 s
unfolding resumed settled
resumed-IsReviewed now task_id true st s h whole =
    let ends = retire_task_working_memories-Ends now task_id "agent_task_completed" st.memories in
    rw h (whole h, refl, refl, ends.2)
resumed-IsReviewed now task_id false st s h whole = rw h (refl, refl, refl)

-- A reply that has reviewed the task, or an error that changes nothing.
abbrev Answers :
    (now task_id : ℕ) (approved : Bool) (before : LearningStore)
    → Response LearningSnapshot × LearningStore
    → Type 0
Answers now task_id approved before answer =
    ((s : LearningSnapshot) × (answer.0 ≡ reply s)
      × IsReviewed now task_id approved before answer.1 s)
    ⊎ ((detail : String) × (answer.0 ≡ http_error 409 detail) × (answer.1 ≡ before))

resumed-Answers :
    (now task_id : ℕ) (approved : Bool) (st : LearningStore) (result : Result LearningSnapshot)
    → ((s : LearningSnapshot) → result ≡ ok s → s.values.status ≡ outcome approved)
    → ((s : LearningSnapshot) → result ≡ ok s → s.values.status ≡ "completed" → IsWhole s.values)
    → Answers now task_id approved st (resumed now task_id approved st result)
unfolding resumed
resumed-Answers now task_id approved st (raised x) status whole = inr (x.text, refl, refl)
resumed-Answers now task_id approved st (ok s) status whole =
    inl (s, refl, resumed-IsReviewed now task_id approved st s (status s refl) (whole s refl))

-- In an honest thread, a review of a stored task's plan answers with a snapshot of the graph or with
-- an HTTP error: an approval completes the task, whose plan is whole and whose working memories have
-- ended; a rejection blocks the task and leaves its memories; and an error changes nothing.
pub resume_agent_learning_graph-IsReviewed :
    (now : ℕ) (task : PlannedTask) (approved : Bool) (comment : Option String) (st : LearningStore)
    → IsThread st.current
    → (let answer = resume_agent_learning_graph now (some task) approved comment st in
        ((s : LearningSnapshot) × (answer.0 ≡ reply s)
          × IsReviewed now task.id approved st answer.1 s)
        ⊎ ((detail : String) × (answer.0 ≡ http_error 409 detail) × (answer.1 ≡ st)))
unfolding resume_agent_learning_graph
resume_agent_learning_graph-IsReviewed now task approved comment st honest =
    resumed-Answers now task.id approved st (resume_learning_graph approved comment st.current)
      (λ s. resumed_status approved comment st.current)
      (λ s. resumed-IsWhole approved comment st.current honest)
