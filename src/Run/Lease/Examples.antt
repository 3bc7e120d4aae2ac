-- ===== src/Run/Lease/Examples.antt =====
-- Two workers and one run.
use careerops_agent.Shared.{◌≡◌, refl, none, List, [], ◌∷◌, arith, eq_iff, All}
use careerops_agent.Run.Rows.{AgentRun, RunStatus}
use careerops_agent.Run.Lease.{leased, acquire_agent_run_lease}
use careerops_agent.Run.Lease.Exclusive.{
  Request, acquire, renew, release, Held, Foreign, serve_all, acquire-exclusive,
}

abbrev pub free_run : AgentRun
free_run = record {
  id = 1;
  task_id = 4;
  provider = "fake";
  model = "m";
  status = RunStatus.running;
  max_steps = 6;
  step_count = 0;
  final_answer = none;
  stop_reason = none;
  error = none;
  lease_owner = none;
  lease_expires_at = none;
  lease_heartbeat_at = none;
  started_at = 5;
  completed_at = none;
}

abbrev pub held_run : AgentRun
held_run = leased "w1" 30 100 free_run

abbrev rivals : List Request
rivals = acquire "w2" 30 110 ∷ release "w2" ∷ renew "w2" 30 120 ∷ []

rivals-Foreign : All (Foreign "w1" 130) rivals
rivals-Foreign = (
  ((λ e. ground (arith, eq_iff "w2" "w1")), ground arith),
  (
    (λ e. ground (arith, eq_iff "w2" "w1")),
    (((λ e. ground (arith, eq_iff "w2" "w1")), ground arith), tt),
  ),
)

acquire-exclusive_example :
    let after = (acquire_agent_run_lease 1 "w1" 30 100 (free_run ∷ [])).1 in
    Held 1 "w1" 130 after × (serve_all 1 rivals after ≡ after)
unfolding acquire_agent_run_lease
acquire-exclusive_example =
    acquire-exclusive 1 "w1" 30 100 (free_run ∷ []) rivals (tt, tt) refl rivals-Foreign
