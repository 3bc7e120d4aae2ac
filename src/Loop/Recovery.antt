-- ===== src/Loop/Recovery.antt =====
-- app/services/agent_run_recovery.py: stale runs are resumed where they were committed. The recovery
-- of tool calls is that of app/services/tool_recovery.py.
pub mod Ends
use careerops_agent.Shared.{
  ℕ, String, false, not, Option, none, some, last, update_where, is_none, if◌then◌else◌, ◌==◌,
  Eq_nat, Eq_text,
}
use careerops_agent.Tool.Rows.{ToolCallRecord}
use careerops_agent.Tool.Tests.{find_call}
use careerops_agent.Tool.Execution.{Platform}
use careerops_agent.Tool.Recovery.{recover_tool_call}
use careerops_agent.Context.Task.{PlannedTask}
use careerops_agent.Memory.Candidate.{tool_call_of}
use careerops_agent.Run.Rows.{AgentRun, RunStep, RunStatus}
use careerops_agent.Loop.Model.{AgentModel, Result, ok, raised, value_error}
use careerops_agent.Loop.Store.{Store, Engine, get_step, steps_in, task_row}
use careerops_agent.Loop.Observe.{
  latest_authorization, serialize_tool_call, execute_pending_tool_step,
}
use careerops_agent.Loop.Workflow.{Snapshot}
use careerops_agent.Loop.Resume.{Recovered, is_terminal, mark_run_for_review, incompatible, resume}

module _ (saved : AgentRun → Option Snapshot) where
  module _ (e : Engine) where
    pub after_pending : (run_id : ℕ) (previous : RunStatus) → Result (Unit {0}) × Store → Recovered
    unfolding resume
    after_pending run_id previous (raised x, s) = some (raised x, s)
    after_pending run_id previous (ok u, s) =
        resume saved e s run_id previous "executed_pending_tool"
          "The model decision was saved before any ToolCall was committed; the tool ran once."

    -- `_restore_observation`, and what follows it.
    pub restore_found :
        Store → (run_id : ℕ) (previous : RunStatus) → ToolCallRecord → Option RunStep → Recovered
    unfolding resume serialize_tool_call
    restore_found s run_id previous call none =
        some (value_error "agent run step no longer exists", s)
    restore_found s run_id previous call (some step) =
        let o = serialize_tool_call e (latest_authorization s.db call) call false in
        resume saved e
          (record s {
            steps =
                update_where (λ t. t.id == step.id) (λ t. record t { observation = some o })
                  s.steps;
          })
          run_id previous "restored_observation"
          "The durable ToolCall result was restored into the Agent step before continuing."

    abbrev unsafe : String
    unsafe = "The ToolCall result is not safe to resume automatically."

    -- `tool_call.error if tool_call and tool_call.error else ...`
    abbrev error_or_unsafe : (error : String) → String
    error_or_unsafe error = if error == "" then unsafe else error

    abbrev error_of : ToolCallRecord → String
    error_of call = elim call.error [ none ↦ unsafe | some m ↦ error_or_unsafe (e.message_text m) ]

    -- After the recovery of the call, with its row as it is then.
    pub with_call :
        Store → AgentRun → (previous : RunStatus) → RunStep → Option ToolCallRecord → Recovered
    unfolding restore_found mark_run_for_review
    with_call s run previous latest none = mark_run_for_review s run previous unsafe
    with_call s run previous latest (some call) =
        let restored = restore_found s run.id previous call (get_step s latest.id) in
        let reviewed = mark_run_for_review s run previous (error_of call) in
        if is_terminal call.status then restored else reviewed

    pub with_linked_call :
        Platform
        → Store
        → PlannedTask
        → AgentRun
        → (previous : RunStatus) → RunStep
        → Option ToolCallRecord
        → Recovered
    unfolding with_call recover_tool_call mark_run_for_review
    with_linked_call p s task run previous latest none =
        mark_run_for_review s run previous
          "The Agent step references a ToolCall that no longer exists."
    with_linked_call p s task run previous latest (some call) =
        let db = (recover_tool_call p (task_row task) call s.db).1 in
        let recovered =
          with_call (record s { db = db }) run previous latest (find_call call.id db) in
        let settled = with_call s run previous latest (some call) in
        if not (is_terminal call.status) then recovered else settled

    pub with_link :
        Platform
        → Store
        → PlannedTask
        → AgentRun
        → (previous : RunStatus) → RunStep
        → (tool_call_id : Option ℕ) → Recovered
    unfolding after_pending execute_pending_tool_step with_linked_call
    with_link p s task run previous latest none =
        after_pending run.id previous (execute_pending_tool_step e s run.id latest.id)
    with_link p s task run previous latest (some call_id) =
        with_linked_call p s task run previous latest (find_call call_id s.db)

    pub with_latest :
        Platform
        → Store
        → PlannedTask
        → AgentRun
        → (previous : RunStatus) → Option RunStep
        → Recovered
    unfolding resume with_link tool_call_of
    with_latest p s task run previous none =
        resume saved e s run.id previous "resumed"
          "No model step had been committed, so the Agent loop restarted safely."
    with_latest p s task run previous (some latest) =
        let answered =
          resume saved e s run.id previous "completed_from_saved_answer"
            "The saved final answer was used without calling the model again." in
        let observed =
          resume saved e s run.id previous "resumed"
            "The last observation was complete, so the next model step could run." in
        let unobserved =
          with_link p s task run previous latest (tool_call_of s.db.run_steps latest.id) in
        if latest.action_type == "final_answer"
        then answered
        else if not (is_none latest.observation)
        then observed
        else unobserved

  -- `recover_agent_run`. `engine` makes the engine of a model, `models` the model of a run.
  module _ (p : Platform) (engine : AgentModel → Engine)
      (models : (provider : String) (model : Option String) → Result AgentModel) where
    pub with_compatible :
        Store → PlannedTask → AgentRun → AgentModel → (error : Option String) → Recovered
    unfolding mark_run_for_review with_latest
    with_compatible s task run model (some error) = mark_run_for_review s run run.status error
    with_compatible s task run model none =
        with_latest (engine model) p s task run run.status (last (steps_in s run.id))

    pub with_model : Store → PlannedTask → AgentRun → Result AgentModel → Recovered
    unfolding with_compatible mark_run_for_review incompatible
    with_model s task run (raised x) =
        let reviewed = mark_run_for_review s run run.status x.text in
        if x.kind == "ValueError" then reviewed else some (raised x, s)
    with_model s task run (ok model) = with_compatible s task run model (incompatible saved run)

    unfoldable pub recover_agent_run : Store → PlannedTask → AgentRun → Recovered
    unfolding with_model
    recover_agent_run s task run = with_model s task run (models run.provider (some run.model))
