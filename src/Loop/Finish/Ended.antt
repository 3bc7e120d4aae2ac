-- ===== src/Loop/Finish/Ended.antt =====
-- app/services/agent_loop.py: what ends a run ends it for good.
use careerops_agent.Shared.{
  ℕ, ◌≤◌, ◌≡◌, refl, Bool, true, false, Option, none, some, Bool-cases, inl, inr, String, ◌==◌,
  Eq_text, is_none, last, or_else,
}
use careerops_agent.Context.Task.{PlannedTask}
use careerops_agent.Run.Rows.{AgentRun, is_running, RunStep}
use careerops_agent.Loop.Model.{Result, ok, raised, Exception}
use careerops_agent.Loop.Store.{Store, Engine, get_task, steps_in}
use careerops_agent.Loop.Has.{Has, Within, Ended, put_run-Has}
use careerops_agent.Loop.Finish.{
  complete_present, complete_found, complete_run, boundary_done, finish_latest, finish_found,
  finish_committed_boundary, stop_found, stop_at_limit, mark_found, mark_failed,
}

-- Without an exception the run has ended; after one, it is still there.
abbrev pub Done : (run_id limit : ℕ) → Result (Unit {0}) × Store → Type 0
Done run_id limit (ok u, s) = Ended run_id limit s
Done run_id limit (raised x, s) = Within run_id limit s

module _ (s : Store) (run_id : ℕ) (r : AgentRun) (has : Has run_id s r) where
  complete_some-Done :
      (e : Engine) (task : Option PlannedTask) (answer : String)
      → r.step_count ≤ r.max_steps
      → Done run_id r.max_steps (complete_found e s (some r) (λ _. task) answer)
  unfolding complete_found complete_present
  complete_some-Done e none answer fits = (r, has, refl, fits)
  complete_some-Done e (some task) answer fits =
      (_, put_run-Has s run_id r _ has refl, refl, fits, refl)

  pub complete_run-Done :
      (e : Engine) (answer : String)
      → r.step_count ≤ r.max_steps
      → Done run_id r.max_steps (complete_run e s run_id answer)
  unfolding complete_run complete_found
  complete_run-Done e answer fits = rw has (complete_some-Done e (get_task s r.task_id) answer fits)

  pub stop_at_limit-Ended :
      r.step_count ≤ r.max_steps → Done run_id r.max_steps (stop_at_limit s run_id)
  unfolding stop_at_limit stop_found
  stop_at_limit-Ended fits = rw has ((_, put_run-Has s run_id r _ has refl, refl, fits, refl))

  pub mark_failed-Ended :
      (x : Exception)
      → r.step_count ≤ r.max_steps
      → Ended run_id r.max_steps (mark_failed s run_id x)
  unfolding mark_failed mark_found
  mark_failed-Ended x fits = rw has ((_, put_run-Has s run_id r _ has refl, refl, fits, refl))

  -- What `_finish_committed_boundary` comes to: an end, an exception, or a run as it was.
  abbrev pub Bounded : Result Bool × Store → Type 0
  Bounded (raised x, s') = Within run_id r.max_steps s'
  Bounded (ok true, s') = Ended run_id r.max_steps s'
  Bounded (ok false, s') = s' ≡ s

  boundary_done-Bounded :
      (e : Engine) (result : Result (Unit {0}) × Store)
      → Done run_id r.max_steps result
      → Bounded (boundary_done e result)
  boundary_done-Bounded e (raised x, s') d = d
  boundary_done-Bounded e (ok u, s') d = d

  finish_latest-Bounded :
      (e : Engine) (latest : Option RunStep)
      → r.step_count ≤ r.max_steps
      → Bounded (finish_latest e s run_id latest)
  unfolding finish_latest
  finish_latest-Bounded e none fits = refl
  finish_latest-Bounded e (some latest) fits =
      elim (Bool-cases (latest.action_type == "final_answer")) [
        | inl t ↦
            (let answer = or_else latest.model_response.content "" in
              rw t (
                boundary_done-Bounded e (complete_run e s run_id answer)
                  (complete_run-Done e answer fits)))
        | inr f ↦ rw f (elim (Bool-cases (is_none latest.observation)) [
          | inl t ↦ rw t (r, has, refl, fits)
          | inr g ↦ rw g refl
        ])
      ]

  finish_some-Bounded :
      (e : Engine) → r.step_count ≤ r.max_steps → Bounded (finish_found e s run_id (some r))
  unfolding finish_found
  finish_some-Bounded e fits = elim (Bool-cases (is_running r.status)) [
    | inl t ↦ rw t (finish_latest-Bounded e (last (steps_in s r.id)) fits)
    | inr f ↦ rw f (r, has, refl, fits, f)
  ]

  pub finish_committed_boundary-Bounded :
      (e : Engine) → r.step_count ≤ r.max_steps → Bounded (finish_committed_boundary e s run_id)
  unfolding finish_committed_boundary
  finish_committed_boundary-Bounded e fits = rw has (finish_some-Bounded e fits)
