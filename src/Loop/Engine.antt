-- ===== src/Loop/Engine.antt =====
-- app/services/agent_loop.py: the loop of model and tool, and the runs that it starts.
pub mod Ends
use careerops_agent.Shared.{
  ℕ, zero, suc, ◌+◌, ◌-◌, String, Bool, true, false, Option, none, some, List, [], ◌∷◌, ◌++◌,
  length, keep, if◌then◌else◌, ◌==◌, Eq_nat, Eq_text, or_else,
}
use careerops_agent.Run.Rows.{RunStatus, AgentRun, AgentDecision, AgentModelRequest}
use careerops_agent.Loop.Model.{
  AgentModel, Result, ok, raised, value_error, Exception, validate_decision,
}
use careerops_agent.Loop.Store.{Store, Engine, get_run}
use careerops_agent.Loop.Request.{build_request}
use careerops_agent.Loop.Record.{record_model_decision}
use careerops_agent.Loop.Observe.{execute_tool}
use careerops_agent.Loop.Finish.{
  complete_run, finish_committed_boundary, step_limit_reached, stop_at_limit, mark_failed,
}

-- What one pass of the `while True` loop comes to: `_run` returns or raises, or the loop goes on.
pub data Turn : Type 0 where
  stop : Result (Unit {0}) → Store → Turn
  again : Store → Turn

-- `if self._step_limit_reached(run_id)`
pub at_limit : Result Bool → Store → (run_id : ℕ) → (otherwise : Turn) → Turn
unfolding stop_at_limit
at_limit (raised x) s run_id otherwise = stop (raised x) s
at_limit (ok true) s run_id otherwise = let (done, s') = stop_at_limit s run_id in stop done s'
at_limit (ok false) s run_id otherwise = otherwise

module _ (e : Engine) where
  -- After `_execute_tool`.
  pub after_tool : Result (Unit {0}) × Store → (run_id : ℕ) → Turn
  unfolding at_limit step_limit_reached
  after_tool (raised x, s) run_id = stop (raised x) s
  after_tool (ok u, s) run_id = at_limit (step_limit_reached s run_id) s run_id (again s)

  -- After `_record_model_decision`.
  pub after_record : Result ℕ × Store → (run_id : ℕ) → AgentDecision → Turn
  unfolding after_tool complete_run execute_tool
  after_record (raised x, s) run_id decision = stop (raised x) s
  after_record (ok step_id, s) run_id decision =
      if decision.action_type == "final_answer"
      then (let (done, s') = complete_run e s run_id (or_else decision.content "") in stop done s')
      else after_tool (execute_tool e s run_id step_id decision) run_id

  pub if_valid : Result (Unit {0}) → Store → (run_id : ℕ) → AgentModelRequest → AgentDecision → Turn
  unfolding after_record record_model_decision
  if_valid (raised x) s run_id request decision = stop (raised x) s
  if_valid (ok u) s run_id request decision =
      after_record (record_model_decision s run_id request decision) run_id decision

  -- After `decide`.
  pub after_decision : Result AgentDecision → Store → (run_id : ℕ) → AgentModelRequest → Turn
  unfolding if_valid validate_decision
  after_decision (raised x) s run_id request = stop (raised x) s
  after_decision (ok decision) s run_id request =
      if_valid (validate_decision decision) s run_id request decision

  pub after_request : Result (Option AgentModelRequest) × Store → (run_id : ℕ) → Turn
  unfolding after_decision
  after_request (raised x, s) run_id = stop (raised x) s
  after_request (ok none, s) run_id = stop (ok tt) s
  after_request (ok (some request), s) run_id =
      after_decision (e.model.decide request) s run_id request

  unfoldable pub turn : Store → (run_id : ℕ) → Turn
  unfolding after_request build_request
  turn s run_id = after_request (build_request e s run_id) run_id

  -- The loop, with fuel: `none` is an exhausted fuel.
  pub loop : (fuel : ℕ) → Store → (run_id : ℕ) → Option (Result (Unit {0}) × Store)
  unfolding turn
  loop zero s run_id = none
  loop (suc fuel) s run_id = elim (turn s run_id) [
    | stop done s' ↦ some (done, s')
    | again s' ↦ loop fuel s' run_id
  ]

  -- A step of each pass counts, up to the limit.
  pub loop_fuel : Option AgentRun → ℕ
  loop_fuel none = 1
  loop_fuel (some run) = run.max_steps - run.step_count

  pub unless_at_limit : Result Bool → Store → (run_id : ℕ) → Option (Result (Unit {0}) × Store)
  unfolding loop loop_fuel stop_at_limit
  unless_at_limit (raised x) s run_id = some (raised x, s)
  unless_at_limit (ok true) s run_id = some (stop_at_limit s run_id)
  unless_at_limit (ok false) s run_id = loop (loop_fuel (get_run s run_id)) s run_id

  pub unless_finished : Result Bool × Store → (run_id : ℕ) → Option (Result (Unit {0}) × Store)
  unfolding unless_at_limit step_limit_reached
  unless_finished (raised x, s) run_id = some (raised x, s)
  unless_finished (ok true, s) run_id = some (ok tt, s)
  unless_finished (ok false, s) run_id = unless_at_limit (step_limit_reached s run_id) s run_id

  -- `_run`
  unfoldable pub run_steps : Store → (run_id : ℕ) → Option (Result (Unit {0}) × Store)
  unfolding unless_finished finish_committed_boundary
  run_steps s run_id = unless_finished (finish_committed_boundary e s run_id) run_id

  pub or_failed : (run_id : ℕ) → Option (Result (Unit {0}) × Store) → Option Store
  unfolding mark_failed
  or_failed run_id none = none
  or_failed run_id (some (ok u, s)) = some s
  or_failed run_id (some (raised x, s)) = some (mark_failed s run_id x)

  -- `AgentLoopEngine.run`
  unfoldable pub run_engine : Store → (run_id : ℕ) → Option Store
  unfolding or_failed run_steps
  run_engine s run_id = or_failed run_id (run_steps s run_id)

-- `create_agent_run`: the run, and the table with it.
unfoldable pub create_agent_run :
    (now task_id max_steps : ℕ) → AgentModel → List AgentRun → AgentRun × List AgentRun
create_agent_run now task_id max_steps model runs =
    let run : AgentRun = record {
      id = suc (length runs);
      task_id = task_id;
      provider = model.provider;
      model = model.model;
      status = RunStatus.running;
      max_steps = max_steps;
      step_count = 0;
      final_answer = none;
      stop_reason = none;
      error = none;
      lease_owner = none;
      lease_expires_at = none;
      lease_heartbeat_at = none;
      started_at = now;
      completed_at = none;
    } in
    (run, runs ++ run ∷ [])
