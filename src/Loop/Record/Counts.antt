-- ===== src/Loop/Record/Counts.antt =====
-- app/services/agent_loop.py: a recorded decision counts one step.
use careerops_agent.Shared.{ℕ, ◌+◌, refl, some, Bool-cases, inl, inr}
use careerops_agent.Run.Rows.{AgentRun, AgentDecision, AgentModelRequest, is_running}
use careerops_agent.Loop.Model.{Result, ok, raised}
use careerops_agent.Loop.Store.{Store}
use careerops_agent.Loop.Has.{Has, put_run-Has}
use careerops_agent.Loop.Record.{record_running, record_found, record_model_decision}

-- Either the run has one step more and all else of it is as before, or nothing was recorded.
abbrev pub Counted : (run_id : ℕ) → AgentRun → Result ℕ × Store → Type 0
Counted run_id r (raised x, s') = Has run_id s' r
Counted run_id r (ok step_id, s') = Has run_id s' (record r { step_count = r.step_count + 1 })

module _ (s : Store) (run_id : ℕ) (r : AgentRun) (has : Has run_id s r) where
  record_some-Counted :
      (request : AgentModelRequest) (decision : AgentDecision)
      → Counted run_id r (record_found s (some r) request decision)
  unfolding record_found record_running
  record_some-Counted request decision = elim (Bool-cases (is_running r.status)) [
    | inl t ↦ rw t (put_run-Has s run_id r (record r { step_count = r.step_count + 1 }) has refl)
    | inr f ↦ rw f has
  ]

  pub record_model_decision-Counted :
      (request : AgentModelRequest) (decision : AgentDecision)
      → Counted run_id r (record_model_decision s run_id request decision)
  unfolding record_model_decision
  record_model_decision-Counted request decision = rw has (record_some-Counted request decision)
