-- ===== src/Loop/Observe.antt =====
-- app/services/agent_loop.py: a tool runs, and the step keeps what was observed.
pub mod Kept
use Prim.Native.String.{◌++◌ as concat}
use careerops_agent.Shared.{
  ℕ, suc, ◌+◌, String, Bool, true, false, not, ◌&&◌, ◌||◌, Option, none, some, List, [], ◌∷◌, ◌++◌,
  first, keep, last, update_where, if◌then◌else◌, ◌==◌, Eq_nat, Eq_text, or_else, is_none, is_some,
}
use careerops_agent.Shared.Text.{decimal}
use careerops_agent.Tool.Rows.{
  Json, null, bool, num, str, obj, end, field, AgentRunStep, Message, ToolCallRecord,
  ToolAuthorization, CallStatus, Decision, ReconciliationStatus, Db,
}
use careerops_agent.Tool.Runtime.{
  ToolCallOutcome, outcome, unknown_tool_error, idempotency_conflict, replay_permission_error,
}
use careerops_agent.Context.Json.{object}
use careerops_agent.Context.Task.{PlannedTask, opt_text}
use careerops_agent.Memory.Candidate.{opt_num, tool_call_of}
use careerops_agent.Memory.Rules.{verdict_name}
use careerops_agent.Memory.Rows.{MemoryDb}
use careerops_agent.Memory.Semantics.{MemoryEvaluation}
use careerops_agent.Memory.Capture.{evaluate_and_store_tool_working_memory}
use careerops_agent.Run.Rows.{AgentRun, RunStep, AgentDecision, TraceEntry}
use careerops_agent.Loop.Model.{Result, ok, raised, value_error, validate_decision}
use careerops_agent.Loop.Store.{Store, Engine, get_run, get_step, get_task, task_row, evidence}
use careerops_agent.Loop.Names.{
  permission_name, effect_name, mode_name, policy_name, status_name, decision_name,
  reconciliation_name,
}
use careerops_agent.Loop.Record.{entry}

abbrev opt {ℓ} : {A : Type ℓ} → (A → Json) → Option A → Json
opt f none = null
opt f (some a) = f a

-- `record.authorizations[-1]`
abbrev pub latest_authorization : Db → ToolCallRecord → Option ToolAuthorization
latest_authorization db r = last (keep (λ a. a.tool_call_id == r.id) db.authorizations)

-- `session.get(AgentRunStep, step_id).tool_call_id = record.id`
abbrev link_step : (step_id tool_call_id : ℕ) → List AgentRunStep → List AgentRunStep
link_step step_id tool_call_id =
    update_where (λ l. l.id == step_id) (λ l. record l { tool_call_id = some tool_call_id })

abbrev raised_observation : Option String → (error : String) → Json
raised_observation tool_name error = obj (
    field "tool_name" (opt_text tool_name)
      (field "status" (str "error") (field "output" null (field "error" (str error) end))))

module _ (e : Engine) where
  -- `serialize_tool_call` and `json_safe`. The duration and the creation of the row are left out.
  unfoldable pub serialize_tool_call :
      Option ToolAuthorization → ToolCallRecord → (replayed : Bool) → Json
  unfolding object
  serialize_tool_call a r replayed = object (
      ("tool_call_id", num r.id)
      ∷ ("trace_id", opt_num r.trace_id)
      ∷ ("task_id", num r.task_id)
      ∷ ("plan_step_id", opt_num r.plan_step_id)
      ∷ ("tool_name", str r.tool_name)
      ∷ ("permission", str (permission_name r.permission))
      ∷ ("effect", str (effect_name r.effect))
      ∷ ("idempotency_mode", str (mode_name r.idempotency_mode))
      ∷ ("repeat_policy", str (policy_name r.repeat_policy))
      ∷ ("idempotency_key", str r.idempotency_key)
      ∷ ("request_fingerprint", str r.request_fingerprint)
      ∷ ("status", str (status_name r.status))
      ∷ ("attempt_count", num r.attempt_count)
      ∷ ("replay_count", num r.replay_count)
      ∷ ("arguments", r.arguments_json)
      ∷ ("output", or_else r.output_json null)
      ∷ ("error", opt (λ m. str (e.message_text m)) r.error)
      ∷ ("provider_operation_id", opt_text r.provider_operation_id)
      ∷ ("reconciliation_status", opt (λ z. str (reconciliation_name z)) r.reconciliation_status)
      ∷ ("reconciled_at", opt (λ t. str (e.isoformat t)) r.reconciled_at)
      ∷ ("replayed", bool replayed)
      ∷ ("authorization_id", opt (λ z. num z.id) a)
      ∷ ("authorization_decision", opt (λ z. str (decision_name z.decision)) a)
      ∷ ("authorization_reason", opt (λ z. str (e.message_text z.reason)) a)
      ∷ ("authorization_actor_id", opt (λ z. opt_text z.actor_id) a)
      ∷ ("approval_id", opt (λ z. opt_num z.approval_id) a)
      ∷ ("updated_at", str (e.isoformat r.updated_at))
      ∷ ("started_at", opt (λ t. str (e.isoformat t)) r.started_at)
      ∷ ("completed_at", opt (λ t. str (e.isoformat t)) r.completed_at)
      ∷ [])

  -- `decision.call_id or uuid4().hex`
  abbrev call_part : Option String → Db → String × Db
  call_part none db = (e.uuid_hex db.uuids, record db { uuids = suc db.uuids })
  call_part (some c) db =
      if c == "" then (e.uuid_hex db.uuids, record db { uuids = suc db.uuids }) else (c, db)

  abbrev step_key : AgentRun → RunStep → (call : String) → String
  step_key run step call =
      concat "agent-run:" (
        concat (decimal run.id)
          (concat ":step:" (concat (decimal step.sequence) (concat ":" call))))

  -- The observation, and the links after it. What the runner committed before it raised stays.
  pub observation_of : RunStep → AgentDecision → ToolCallOutcome → Db → Json × Db
  unfolding serialize_tool_call
  observation_of step decision (outcome r replayed) db = (
    serialize_tool_call (latest_authorization db r) r replayed,
    record db { run_steps = link_step step.id r.id db.run_steps },
  )
  observation_of step decision unknown_tool_error db =
      (raised_observation decision.tool_name "unknown tool", db)
  observation_of step decision idempotency_conflict db = (
    raised_observation decision.tool_name
        "idempotency key was already used with different tool arguments",
    db,
  )
  observation_of step decision (replay_permission_error m) db =
      (raised_observation decision.tool_name (e.message_text m), db)

  capture_entries : AgentRun → RunStep → Option MemoryEvaluation → List TraceEntry
  unfolding decimal
  capture_entries run step none = []
  capture_entries run step (some z) =
      entry run.task_id "memory" (verdict_name z.decision)
        (concat "Capture working memory from Agent run "
          (concat (decimal run.id) (concat ", step " (concat (decimal step.sequence) "."))))
        (if z.storage_action == "stored"
          then "Stored verified tool output as run-scoped working memory."
          else "Working-memory candidate was not stored.")
      ∷ []

  -- The part after the tool's answer: the observation is kept, and may become a working memory.
  pub keep_observation : Store → PlannedTask → AgentRun → RunStep → Json → Db → Store
  unfolding evaluate_and_store_tool_working_memory capture_entries tool_call_of
  keep_observation s task run step observation db =
      let s' = record s {
        db = db;
        steps =
            update_where (λ t. t.id == step.id) (λ t. record t { observation = some observation })
              s.steps;
      } in
      let (evaluation, memory) =
        evaluate_and_store_tool_working_memory e.texts db.outside.clock s.memory (evidence s') task
          run step (tool_call_of db.run_steps step.id) observation in
      record s' { memory = memory; entries = s.entries ++ capture_entries run step evaluation }

  -- The rows are there. A validated decision has a name and arguments.
  pub execute_present : Store → PlannedTask → AgentRun → RunStep → AgentDecision → Store
  unfolding observation_of keep_observation decimal
  execute_present s task run step decision =
      let (call, db) = call_part decision.call_id s.db in
      let (answer, db') =
        e.run_tool (task_row task) (or_else decision.tool_name "") (or_else decision.arguments null)
          (step_key run step call) step.id db in
      let (observation, db'') = observation_of step decision answer db' in
      keep_observation s task run step observation db''

  pub execute_found :
      Store
      → Option AgentRun
      → Option PlannedTask
      → Option RunStep
      → AgentDecision
      → Result (Unit {0}) × Store
  unfolding execute_present
  execute_found s (some run) (some task) (some step) decision =
      (ok tt, execute_present s task run step decision)
  execute_found s _ _ _ decision = (value_error "agent run state is incomplete", s)

  abbrev task_of : Store → Option AgentRun → Option PlannedTask
  task_of s none = none
  task_of s (some run) = get_task s run.task_id

  -- `_execute_tool`
  unfoldable pub execute_tool :
      Store → (run_id step_id : ℕ) → AgentDecision → Result (Unit {0}) × Store
  unfolding execute_found
  execute_tool s run_id step_id decision =
      execute_found s (get_run s run_id) (task_of s (get_run s run_id)) (get_step s step_id)
        decision

  pub pending_decision : AgentDecision → AgentDecision
  pending_decision d = record d { action_type = "tool_call"; content = none }

  abbrev if_decided :
      Store
      → (run_id step_id : ℕ) → AgentDecision
      → (valid : Result (Unit {0})) → Result (Unit {0}) × Store
  if_decided s run_id step_id decision (raised x) = (raised x, s)
  if_decided s run_id step_id decision (ok u) = execute_tool s run_id step_id decision

  pub execute_pending : Store → (run_id : ℕ) → Option RunStep → Result (Unit {0}) × Store
  unfolding execute_tool validate_decision tool_call_of pending_decision
  execute_pending s run_id none = (value_error "pending agent tool step not found", s)
  execute_pending s run_id (some step) =
      let decision = pending_decision step.model_response in
      if not (step.run_id == run_id) || not (step.action_type == "tool_call")
      then (value_error "pending agent tool step not found", s)
      else if is_some step.observation || is_some (tool_call_of s.db.run_steps step.id)
      then (value_error "agent tool step is not pending execution", s)
      else if_decided s run_id step.id decision (validate_decision decision)

  -- `execute_pending_tool_step`
  unfoldable pub execute_pending_tool_step :
      Store → (run_id step_id : ℕ) → Result (Unit {0}) × Store
  unfolding execute_pending
  execute_pending_tool_step s run_id step_id = execute_pending s run_id (get_step s step_id)
