-- ===== src/Loop/Engine/Ends.antt =====
-- app/services/agent_loop.py: a run that is executed ends.
use careerops_agent.Shared.{
  ℕ, zero, suc, ◌+◌, ◌-◌, ◌≤◌, ◌<◌, ◌≡◌, refl, Bool, true, false, Option, none, some, leb, arith,
  Bool-cases, inl, inr, ◌==◌, Eq_nat, Eq_text, subst, leb-false, or_else,
}
use careerops_agent.Run.Rows.{AgentRun, AgentDecision, AgentModelRequest}
use careerops_agent.Loop.Model.{Result, ok, raised, validate_decision}
use careerops_agent.Loop.Store.{Store, Engine}
use careerops_agent.Loop.Has.{Has, Ended}
use careerops_agent.Loop.Request.{build_request}
use careerops_agent.Loop.Request.Kept.{Kept, build_request-Kept}
use careerops_agent.Loop.Record.{record_model_decision}
use careerops_agent.Loop.Record.Counts.{Counted, record_model_decision-Counted}
use careerops_agent.Loop.Observe.{execute_tool}
use careerops_agent.Loop.Observe.Kept.{execute_tool-runs}
use careerops_agent.Loop.Finish.{
  finish_committed_boundary, limit_reached, step_limit_reached, mark_failed,
}
use careerops_agent.Loop.Finish.Ended.{
  Done, Bounded, finish_committed_boundary-Bounded, complete_run-Done, stop_at_limit-Ended,
  mark_failed-Ended,
}
use careerops_agent.Loop.Engine.{
  Turn, stop, again, at_limit, after_tool, after_record, if_valid, after_decision, after_request,
  turn, loop, loop_fuel, unless_at_limit, unless_finished, run_steps, or_failed, run_engine,
}

-- One pass: it stops, or the run has one step more and is still below its limit.
abbrev Passed : (run_id limit count : ℕ) → Turn → Type 0
Passed run_id limit count (stop done s) = Done run_id limit (done, s)
Passed run_id limit count (again s) =
    (r : AgentRun) × Has run_id s r
    × (r.max_steps ≡ limit)
    × (r.step_count ≡ suc count)
    × (r.step_count < limit)

-- In what follows, `r` is the run before the step.
module _ (e : Engine) (run_id : ℕ) (r : AgentRun) (below : r.step_count < r.max_steps) where
  abbrev one_more : AgentRun
  one_more = record r { step_count = r.step_count + 1 }

  at_limit-Passed :
      (s : Store)
      → Has run_id s one_more
      → Passed run_id r.max_steps r.step_count
          (at_limit (limit_reached (some one_more)) s run_id (again s))
  unfolding at_limit limit_reached
  at_limit-Passed s has = elim (Bool-cases (leb r.max_steps (r.step_count + 1))) [
    | inl t ↦ rw t (stop_at_limit-Ended s run_id one_more has (omega (arith, below)))
    | inr f ↦ rw f (one_more, has, refl, omega arith, leb-false r.max_steps (r.step_count + 1) f)
  ]

  after_tool-Passed :
      (result : Result (Unit {0}) × Store)
      → Has run_id result.1 one_more
      → Passed run_id r.max_steps r.step_count (after_tool e result run_id)
  unfolding after_tool step_limit_reached
  after_tool-Passed (raised x, s) has = (one_more, has, refl, omega (arith, below))
  after_tool-Passed (ok u, s) has = rw has (at_limit-Passed s has)

  after_record-Passed :
      (result : Result ℕ × Store) (decision : AgentDecision)
      → Counted run_id r result
      → Passed run_id r.max_steps r.step_count (after_record e result run_id decision)
  unfolding after_record
  after_record-Passed (raised x, s) decision has = (r, has, refl, omega (arith, below))
  after_record-Passed (ok step_id, s) decision has =
      elim (Bool-cases (decision.action_type == "final_answer")) [
        | inl t ↦ rw t (
            complete_run-Done s run_id one_more has e (or_else decision.content "")
              (omega (arith, below)))
        | inr f ↦ rw f (
            after_tool-Passed (execute_tool e s run_id step_id decision)
              (rw (execute_tool-runs e s run_id step_id decision) has))
      ]

  if_valid-Passed :
      (valid : Result (Unit {0})) (s : Store) (request : AgentModelRequest)
      (decision : AgentDecision)
      → Has run_id s r
      → Passed run_id r.max_steps r.step_count (if_valid e valid s run_id request decision)
  unfolding if_valid
  if_valid-Passed (raised x) s request decision has = (r, has, refl, omega (arith, below))
  if_valid-Passed (ok u) s request decision has =
      after_record-Passed (record_model_decision s run_id request decision) decision
        (record_model_decision-Counted s run_id r has request decision)

  after_decision-Passed :
      (answer : Result AgentDecision) (s : Store) (request : AgentModelRequest)
      → Has run_id s r
      → Passed run_id r.max_steps r.step_count (after_decision e answer s run_id request)
  unfolding after_decision
  after_decision-Passed (raised x) s request has = (r, has, refl, omega (arith, below))
  after_decision-Passed (ok decision) s request has =
      if_valid-Passed (validate_decision decision) s request decision has

  after_request-Passed :
      (result : Result (Option AgentModelRequest) × Store)
      → (s : Store) → Has run_id s r
      → Kept s r result
      → Passed run_id r.max_steps r.step_count (after_request e result run_id)
  unfolding after_request
  after_request-Passed (raised x, s') s has same = (r, rw same has, refl, omega (arith, below))
  after_request-Passed (ok none, s') s has same =
      (r, rw (same.0) has, refl, omega (arith, below), same.1)
  after_request-Passed (ok (some request), s') s has same =
      after_decision-Passed (e.model.decide request) s' request (rw (same.0) has)

  turn-Passed :
      (s : Store) → Has run_id s r → Passed run_id r.max_steps r.step_count (turn e s run_id)
  unfolding turn
  turn-Passed s has =
      after_request-Passed (build_request e s run_id) s has (build_request-Kept e s r run_id has)

-- The loop's result, which it has with this fuel.
abbrev Returns : (run_id limit : ℕ) → Option (Result (Unit {0}) × Store) → Type 0
Returns run_id limit result =
    (done : Result (Unit {0}) × Store) × (result ≡ some done) × Done run_id limit done

module _ (e : Engine) (run_id limit : ℕ) where
  -- With this fuel the loop returns from every run that is below its limit.
  abbrev Enough : (fuel : ℕ) → Type 0
  Enough fuel =
      (s : Store) (r : AgentRun)
      → Has run_id s r
      → r.max_steps ≡ limit
      → r.step_count < limit
      → limit ≤ r.step_count + fuel
      → Returns run_id limit (loop e fuel s run_id)

  next-Returns :
      (fuel count : ℕ) (t : Turn)
      → Passed run_id limit count t
      → limit ≤ count + suc fuel
      → Enough fuel
      → Returns run_id limit
          (elim t [ stop done s' ↦ some (done, s') | again s' ↦ loop e fuel s' run_id ])
  next-Returns fuel count (stop done s) passed enough later = (_, refl, passed)
  next-Returns fuel count (again s) (r, has, m, c, below) enough later =
      later s r has m below (omega (arith, enough, c))

  loop-Returns : (fuel : ℕ) → Enough fuel
  unfolding loop
  loop-Returns zero s r has m below enough = absurd (omega (arith, below, enough))
  loop-Returns (suc fuel) s r has m below enough =
      next-Returns fuel r.step_count (turn e s run_id)
        (subst (λ z. Passed run_id z r.step_count (turn e s run_id)) m
          (turn-Passed e run_id r (omega (arith, below, m)) s has))
        enough (loop-Returns fuel)

module _ (e : Engine) (run_id : ℕ) (r : AgentRun) (fits : r.step_count ≤ r.max_steps) where
  unless_at_limit-Returns :
      (s : Store)
      → Has run_id s r
      → Returns run_id r.max_steps (unless_at_limit e (limit_reached (some r)) s run_id)
  unfolding unless_at_limit limit_reached loop_fuel
  unless_at_limit-Returns s has = elim (Bool-cases (leb r.max_steps r.step_count)) [
    | inl t ↦ rw t (_, refl, stop_at_limit-Ended s run_id r has fits)
    | inr f ↦
        rw (f, has)
          (loop-Returns e run_id r.max_steps (r.max_steps - r.step_count) s r has refl
            (leb-false r.max_steps r.step_count f) (omega (arith, fits)))
  ]

  unless_finished-Returns :
      (s : Store) (has : Has run_id s r) (result : Result Bool × Store)
      → Bounded s run_id r has result
      → Returns run_id r.max_steps (unless_finished e result run_id)
  unfolding unless_finished step_limit_reached
  unless_finished-Returns s has (raised x, s') b = (_, refl, b)
  unless_finished-Returns s has (ok true, s') b = (_, refl, b)
  unless_finished-Returns s has (ok false, s') b = rw (b, has) (unless_at_limit-Returns s has)

  or_failed-Ended :
      (limit : ℕ) (done : Result (Unit {0}) × Store)
      → Done run_id limit done
      → (s' : Store) × (or_failed e run_id (some done) ≡ some s') × Ended run_id limit s'
  unfolding or_failed
  or_failed-Ended limit (ok u, s) ended = (s, refl, ended)
  or_failed-Ended limit (raised x, s) (r', has, m, fits') = (
    mark_failed s run_id x,
    refl,
    subst (λ z. Ended run_id z (mark_failed s run_id x)) m
        (mark_failed-Ended s run_id r' has x (omega (arith, m, fits'))),
  )

  -- Executing a run that is within its limit returns, and leaves the run ended, with no more steps
  -- than its limit: whatever the model answers, the tools do and the memory runtime gives.
  pub run_engine-Ended :
      (s : Store)
      → Has run_id s r
      → (s' : Store) × (run_engine e s run_id ≡ some s') × Ended run_id r.max_steps s'
  unfolding run_engine run_steps
  run_engine-Ended s has =
      let (done, returns, ended) =
        unless_finished-Returns s has (finish_committed_boundary e s run_id)
          (finish_committed_boundary-Bounded s run_id r has e fits) in
      rw returns (or_failed-Ended r.max_steps done ended)
