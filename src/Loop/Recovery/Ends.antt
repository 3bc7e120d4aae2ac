-- ===== src/Loop/Recovery/Ends.antt =====
-- app/services/agent_run_recovery.py: a recovered run is not left running.
use careerops_agent.Shared.{
  ℕ, ◌≤◌, ◌≡◌, refl, Bool, true, false, not, String, Option, none, some, Bool-cases, inl, inr, ◌==◌,
  Eq_text, is_none, last, if◌then◌else◌,
}
use careerops_agent.Tool.Rows.{ToolCallRecord}
use careerops_agent.Tool.Tests.{find_call}
use careerops_agent.Tool.Execution.{Platform}
use careerops_agent.Tool.Recovery.{recover_tool_call}
use careerops_agent.Context.Task.{PlannedTask}
use careerops_agent.Memory.Candidate.{tool_call_of}
use careerops_agent.Run.Rows.{AgentRun, RunStatus, RunStep}
use careerops_agent.Loop.Model.{AgentModel, Result, ok, raised}
use careerops_agent.Loop.Store.{Store, Engine, get_step, task_row, steps_in}
use careerops_agent.Loop.Has.{Has}
use careerops_agent.Loop.Observe.{execute_pending_tool_step}
use careerops_agent.Loop.Observe.Kept.{execute_pending_tool_step-runs}
use careerops_agent.Loop.Workflow.{Snapshot}
use careerops_agent.Loop.Resume.{is_terminal, incompatible, Recovered}
use careerops_agent.Loop.Resume.Ends.{IsOwn, Settles, mark_run_for_review-Settles, resume-Settles}
use careerops_agent.Loop.Recovery.{
  after_pending, restore_found, with_call, with_linked_call, with_link, with_latest,
  with_compatible, with_model, recover_agent_run,
}

either-Settles :
    (run_id : ℕ) (b : Bool) (x y : Recovered)
    → Settles run_id x
    → Settles run_id y
    → Settles run_id (if b then x else y)
either-Settles run_id true x y p q = p
either-Settles run_id false x y p q = q

module _ (saved : AgentRun → Option Snapshot) (own : IsOwn saved) (r : AgentRun)
    (fits : r.step_count ≤ r.max_steps) where
  module _ (e : Engine) (s : Store) (has : Has r.id s r) (previous : RunStatus) where
    after_pending-Settles :
        (result : Result (Unit {0}) × Store)
        → result.1.runs ≡ s.runs
        → Settles r.id (after_pending saved e r.id previous result)
    unfolding after_pending
    after_pending-Settles (raised x, s') same = (_, refl, tt)
    after_pending-Settles (ok u, s') same =
        resume-Settles saved own e s' r.id r previous _ _ (rw same has) fits

    restore_found-Settles :
        (call : ToolCallRecord) (step : Option RunStep)
        → Settles r.id (restore_found saved e s r.id previous call step)
    unfolding restore_found
    restore_found-Settles call none = (_, refl, tt)
    restore_found-Settles call (some step) =
        resume-Settles saved own e _ r.id r previous _ _ has fits

    with_call-Settles :
        (latest : RunStep) (call : Option ToolCallRecord)
        → Settles r.id (with_call saved e s r previous latest call)
    unfolding with_call
    with_call-Settles latest none = mark_run_for_review-Settles s r.id r previous _ has
    with_call-Settles latest (some call) = elim (Bool-cases (is_terminal call.status)) [
      | inl t ↦ rw t (restore_found-Settles call (get_step s latest.id))
      | inr f ↦ rw f (mark_run_for_review-Settles s r.id r previous _ has)
    ]

  module _ (e : Engine) (s : Store) (has : Has r.id s r) (previous : RunStatus) where
    -- The store after the recovery of a call.
    abbrev moved : Platform → PlannedTask → ToolCallRecord → Store
    moved p task call = record s { db = (recover_tool_call p (task_row task) call s.db).1 }

    with_linked_call-Settles :
        (p : Platform) (task : PlannedTask) (latest : RunStep) (call : Option ToolCallRecord)
        → Settles r.id (with_linked_call saved e p s task r previous latest call)
    unfolding with_linked_call
    with_linked_call-Settles p task latest none =
        mark_run_for_review-Settles s r.id r previous _ has
    with_linked_call-Settles p task latest (some call) =
        either-Settles r.id (not (is_terminal call.status)) _ _
          (with_call-Settles e (moved p task call) has previous latest
            (find_call call.id (moved p task call).db))
          (with_call-Settles e s has previous latest (some call))

    with_link-Settles :
        (p : Platform) (task : PlannedTask) (latest : RunStep) (call_id : Option ℕ)
        → Settles r.id (with_link saved e p s task r previous latest call_id)
    unfolding with_link
    with_link-Settles p task latest none =
        after_pending-Settles e s has previous (execute_pending_tool_step e s r.id latest.id)
          (execute_pending_tool_step-runs e s r.id latest.id)
    with_link-Settles p task latest (some call_id) =
        with_linked_call-Settles p task latest (find_call call_id s.db)

    with_latest-Settles :
        (p : Platform) (task : PlannedTask) (latest : Option RunStep)
        → Settles r.id (with_latest saved e p s task r previous latest)
    unfolding with_latest
    with_latest-Settles p task none = resume-Settles saved own e s r.id r previous _ _ has fits
    with_latest-Settles p task (some latest) =
        elim (Bool-cases (latest.action_type == "final_answer")) [
          | inl t ↦ rw t (resume-Settles saved own e s r.id r previous _ _ has fits)
          | inr f ↦ rw f (elim (Bool-cases (is_none latest.observation)) [
            | inl t ↦ rw t (with_link-Settles p task latest (tool_call_of s.db.run_steps latest.id))
            | inr g ↦ rw g (resume-Settles saved own e s r.id r previous _ _ has fits)
          ])
        ]

  module _ (p : Platform) (engine : AgentModel → Engine)
      (models : (provider : String) (model : Option String) → Result AgentModel) (s : Store)
      (has : Has r.id s r) (task : PlannedTask) where
    with_compatible-Settles :
        (model : AgentModel) (error : Option String)
        → Settles r.id (with_compatible saved p engine models s task r model error)
    unfolding with_compatible
    with_compatible-Settles model (some error) = mark_run_for_review-Settles s r.id r r.status _ has
    with_compatible-Settles model none =
        with_latest-Settles (engine model) s has r.status p task (last (steps_in s r.id))

    with_model-Settles :
        (model : Result AgentModel) → Settles r.id (with_model saved p engine models s task r model)
    unfolding with_model
    with_model-Settles (raised x) =
        either-Settles r.id (x.kind == "ValueError") _ (some (raised x, s))
          (mark_run_for_review-Settles s r.id r r.status x.text has) (_, refl, tt)
    with_model-Settles (ok model) = with_compatible-Settles model (incompatible saved r)

    -- Recovering a stored run that is within its step limit returns; and if it raises no exception,
    -- the run is not left running and the decision tells its status. The snapshots of a run's
    -- workflow are its own.
    pub recover_agent_run-Settles : Settles r.id (recover_agent_run saved p engine models s task r)
    unfolding recover_agent_run
    recover_agent_run-Settles = with_model-Settles (models r.provider (some r.model))
