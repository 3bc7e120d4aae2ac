-- ===== src/Loop/Workflow/Honest.antt =====
-- app/services/agent_workflow.py: a workflow is completed only with an answer.
use careerops_agent.Shared.{
  ℕ, String, ◌≡◌, refl, true, false, Option, none, some, arith, Bool-cases, inl, inr, eq_iff, subst,
}
use careerops_agent.Run.Rows.{AgentRun}
use careerops_agent.Loop.Model.{ok, raised}
use careerops_agent.Loop.Store.{Store, Engine, get_run}
use careerops_agent.Loop.Engine.{run_engine}
use careerops_agent.Loop.Workflow.{
  AgentWorkflowState, Progress, is_completed, is_falsy, evaluation_errors_of, evaluate_result_node,
  route_after_evaluation, last_node, evaluate_and_end, agent_finished, after_agent, agent_ran,
  load_context_node, first_state, continue_from, invoke_agent_workflow,
}

not_blocked : ◌≡◌ {A = String} "blocked" "completed" → ⊥
not_blocked h = ground (arith, eq_iff "blocked" "completed")

evaluate_and_end-completed :
    (w : AgentWorkflowState)
    → (evaluate_and_end w).workflow_status ≡ "completed"
    → (is_completed w.agent_status ≡ true) × (is_falsy w.final_answer ≡ false)
unfolding evaluate_and_end evaluate_result_node evaluation_errors_of route_after_evaluation
    last_node
evaluate_and_end-completed w h = elim (Bool-cases (is_completed w.agent_status)) [
  | inl t ↦ elim (Bool-cases (is_falsy w.final_answer)) [
    | inl u ↦ absurd (not_blocked (rw (t, u) at h))
    | inr g ↦ (t, g)
  ]
  | inr f ↦ absurd (not_blocked (rw f at h))
]

-- The run that the workflow reports on is in the store, completed and with an answer.
abbrev pub Answered : (run_id : ℕ) → Store → Type 0
Answered run_id s =
    (r : AgentRun) × (get_run s run_id ≡ some r)
    × (is_completed r.status ≡ true)
    × (is_falsy r.final_answer ≡ false)

-- A result that says that it is completed is answered.
abbrev Honest : (run_id : ℕ) → Progress → Type 0
Honest run_id none = Unit
Honest run_id (some (raised x, s)) = Unit
Honest run_id (some (ok w, s)) = w.workflow_status ≡ "completed" → Answered run_id s

after_agent-Honest :
    (run : Option AgentRun) (w : AgentWorkflowState) (s : Store)
    → get_run s w.run_id ≡ run
    → Honest w.run_id (after_agent run w s)
unfolding after_agent agent_finished
after_agent-Honest none w s found = tt
after_agent-Honest (some r) w s found = λ done.
    let (completed, answer) = evaluate_and_end-completed (agent_finished r w) done in
    (r, found, completed, answer)

agent_ran-Honest : (w : AgentWorkflowState) (o : Option Store) → Honest w.run_id (agent_ran w o)
unfolding agent_ran
agent_ran-Honest w none = tt
agent_ran-Honest w (some s) = after_agent-Honest (get_run s w.run_id) w s refl

-- A workflow that was started and says that it is completed leaves its run completed, with an
-- answer that is not empty.
pub invoke_agent_workflow-completed :
    (e : Engine) (run : AgentRun) (task_id : ℕ) (s s' : Store) (w : AgentWorkflowState)
    → invoke_agent_workflow e run task_id s ≡ some (ok w, s')
    → w.workflow_status ≡ "completed"
    → Answered run.id s'
unfolding invoke_agent_workflow continue_from load_context_node first_state
invoke_agent_workflow-completed e run task_id s s' w h =
    subst (Honest run.id) h
      (agent_ran-Honest (load_context_node (first_state e run task_id)) (run_engine e s run.id))
