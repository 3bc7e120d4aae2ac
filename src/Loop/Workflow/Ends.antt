-- ===== src/Loop/Workflow/Ends.antt =====
-- app/services/agent_workflow.py: the workflow returns, and leaves an ended run ended.
use careerops_agent.Shared.{ℕ, ◌≡◌, refl, Option, none, some, arith, subst}
use careerops_agent.Run.Rows.{AgentRun}
use careerops_agent.Loop.Model.{Result}
use careerops_agent.Loop.Store.{Store, Engine, get_run}
use careerops_agent.Loop.Has.{Ended}
use careerops_agent.Loop.Engine.{run_engine}
use careerops_agent.Loop.Engine.Ends.{run_engine-Ended}
use careerops_agent.Loop.Workflow.{
  AgentWorkflowState, Node, load_context, run_agent, evaluate_result, complete_workflow,
  block_workflow, Progress, load_context_node, after_agent, agent_ran, continue_from,
}

-- The graph returns, with the run ended.
abbrev pub ReturnsEnded : (run_id limit : ℕ) → Progress → Type 0
ReturnsEnded run_id limit progress =
    (done : Result AgentWorkflowState × Store) × (progress ≡ some done) × Ended run_id limit done.1

after_agent-ReturnsEnded :
    (limit : ℕ) (run : Option AgentRun) (w : AgentWorkflowState) (s : Store)
    → Ended w.run_id limit s
    → ReturnsEnded w.run_id limit (after_agent run w s)
unfolding after_agent
after_agent-ReturnsEnded limit none w s ended = (_, refl, ended)
after_agent-ReturnsEnded limit (some run) w s ended = (_, refl, ended)

agent_ran-ReturnsEnded :
    (e : Engine) (limit : ℕ) (w : AgentWorkflowState) (s : Store)
    → Ended w.run_id limit s
    → ReturnsEnded w.run_id limit (agent_ran w (run_engine e s w.run_id))
unfolding agent_ran
agent_ran-ReturnsEnded e limit w s (r, has, m, c, over) =
    let (s', returns, ended) = run_engine-Ended e w.run_id r (omega (arith, m, c)) s has in
    rw returns (
      after_agent-ReturnsEnded limit (get_run s' w.run_id) w s'
        (subst (λ z. Ended w.run_id z s') m ended))

pub continue_from-ReturnsEnded :
    (e : Engine) (limit : ℕ) (node : Node) (w : AgentWorkflowState) (s : Store)
    → Ended w.run_id limit s
    → ReturnsEnded w.run_id limit (continue_from e node w s)
unfolding continue_from load_context_node
continue_from-ReturnsEnded e limit load_context w s ended =
    agent_ran-ReturnsEnded e limit (load_context_node w) s ended
continue_from-ReturnsEnded e limit run_agent w s ended = agent_ran-ReturnsEnded e limit w s ended
continue_from-ReturnsEnded e limit evaluate_result w s ended = (_, refl, ended)
continue_from-ReturnsEnded e limit complete_workflow w s ended = (_, refl, ended)
continue_from-ReturnsEnded e limit block_workflow w s ended = (_, refl, ended)
