-- ===== src/Loop/Observe/Kept.antt =====
-- app/services/agent_loop.py: running a tool leaves the runs alone.
use careerops_agent.Shared.{
  ℕ, ◌≡◌, refl, Option, none, some, not, ◌||◌, Bool-cases, inl, inr, ◌==◌, Eq_nat, Eq_text, is_some,
}
use careerops_agent.Loop.Model.{Result, ok, raised}
use careerops_agent.Memory.Candidate.{tool_call_of}
use careerops_agent.Context.Task.{PlannedTask}
use careerops_agent.Run.Rows.{AgentRun, RunStep, AgentDecision}
use careerops_agent.Loop.Store.{Store, Engine, get_step}
use careerops_agent.Loop.Observe.{
  execute_present, execute_found, execute_tool, keep_observation, if_decided, execute_pending,
  execute_pending_tool_step,
}

execute_found-runs :
    (e : Engine) (s : Store) (run : Option AgentRun) (task : Option PlannedTask)
    (step : Option RunStep) (decision : AgentDecision)
    → (execute_found e s run task step decision).1.runs ≡ s.runs
unfolding execute_found execute_present keep_observation
execute_found-runs e s none task step decision = refl
execute_found-runs e s (some run) none step decision = refl
execute_found-runs e s (some run) (some task) none decision = refl
execute_found-runs e s (some run) (some task) (some step) decision = refl

pub execute_tool-runs :
    (e : Engine) (s : Store) (run_id step_id : ℕ) (decision : AgentDecision)
    → (execute_tool e s run_id step_id decision).1.runs ≡ s.runs
unfolding execute_tool
execute_tool-runs e s run_id step_id decision = search execute_found-runs

-- The call of the pending decision, if it is valid.
valid-runs :
    (e : Engine) (s : Store) (run_id step_id : ℕ) (decision : AgentDecision)
    (valid : Result (Unit {0}))
    → (if_decided e s run_id step_id decision valid).1.runs ≡ s.runs
valid-runs e s run_id step_id decision (raised x) = refl
valid-runs e s run_id step_id decision (ok u) = execute_tool-runs e s run_id step_id decision

execute_pending-runs :
    (e : Engine) (s : Store) (run_id : ℕ) (step : Option RunStep)
    → (execute_pending e s run_id step).1.runs ≡ s.runs
unfolding execute_pending
execute_pending-runs e s run_id none = refl
execute_pending-runs e s run_id (some step) =
    elim (Bool-cases (not (step.run_id == run_id) || not (step.action_type == "tool_call"))) [
      | inl t ↦ rw t refl
      | inr f ↦
          rw f
            (elim (Bool-cases
              (is_some step.observation || is_some (tool_call_of s.db.run_steps step.id))) [
                | inl t ↦ rw t refl
                | inr g ↦ rw g (valid-runs e s run_id step.id _ _)
              ])
    ]

pub execute_pending_tool_step-runs :
    (e : Engine) (s : Store) (run_id step_id : ℕ)
    → (execute_pending_tool_step e s run_id step_id).1.runs ≡ s.runs
unfolding execute_pending_tool_step
execute_pending_tool_step-runs e s run_id step_id =
    execute_pending-runs e s run_id (get_step s step_id)
