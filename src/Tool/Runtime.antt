-- ===== src/Tool/Runtime.antt =====
-- app/services/tool_runtime.py: idempotent tool calls.
pub mod Examples
pub mod Replay
pub mod Refusal
pub mod Unique
use Prim.Native.String.{◌++◌ as concat}
use mathlib.Core.List.{reverse}
use careerops_agent.Shared.{
  ℕ, suc, ◌+◌, String, Bool, true, false, not, ◌&&◌, Option, none, some, List, [], ◌∷◌, ◌++◌,
  length, first, keep, if◌then◌else◌, ◌==◌, Eq_nat, Eq_text,
}
use careerops_agent.Shared.Text.{strip, is_blank}
use careerops_agent.Tool.Rows.{
  Json, IdempotencyMode, no_key, operation_key, CallStatus, proposed, awaiting_approval, Message,
  existing_returned, AgentTask, ToolCallRecord, ToolAuthorization, decided, replayed, Db,
}
use careerops_agent.Tool.Tests.{
  is_allowed, is_requires_approval, is_execution_pending, save, add_trace, next_trace_id,
}
use careerops_agent.Tool.Registry.{ToolDefinition, get_tool}
use careerops_agent.Tool.Authorization.{authorize_tool_call}
use careerops_agent.Tool.Execution.{
  RecordLinker, Platform, trace_and_save, execute_authorized_record,
}

-- What a call returns, or the exception that it raises.
pub data ToolCallOutcome : Type 0 where
  outcome : ToolCallRecord → (replayed : Bool) → ToolCallOutcome
  unknown_tool_error idempotency_conflict : ToolCallOutcome
  replay_permission_error : Message → ToolCallOutcome

module _ (p : Platform) where
  pub request_fingerprint : String → Json → Option ℕ → String
  request_fingerprint tool_name arguments plan_step_id = p.digest tool_name arguments plan_step_id

  draw : String → Db → String × Db
  draw prefix db = (concat prefix (p.uuid_hex db.uuids), record db { uuids = suc db.uuids })

  keyed : Option String → Db → String × Db
  unfolding draw strip is_blank
  keyed none db = draw "operation:" db
  keyed (some key) db = if is_blank (strip key) then draw "operation:" db else (strip key, db)

  pub resolve_key : IdempotencyMode → Option String → Db → String × Db
  unfolding draw keyed
  resolve_key no_key requested db = draw "call:" db
  resolve_key operation_key requested db = keyed requested db

  pub find_tool_call : Db → (task_id : ℕ) → (key : String) → Option ToolCallRecord
  find_tool_call db task_id key =
      first (λ c. c.task_id == task_id && c.idempotency_key == key) db.tool_calls

  pub link_record : Option RecordLinker → ToolCallRecord → Db → Db
  link_record none r db = db
  link_record (some linker) r db = record db { run_steps = linker r db.run_steps }

  replay_authorized :
      AgentTask → ToolCallRecord → ToolDefinition → ToolAuthorization → Db → ToolCallOutcome × Db
  unfolding execute_authorized_record
  replay_authorized task existing d authorization db =
      if not (is_allowed authorization.decision)
      then (replay_permission_error authorization.reason, db)
      else if is_execution_pending existing.status
      then (let (r, db') = execute_authorized_record p task existing d authorization db in
          (outcome r false, db'))
      else (let counted = record existing { replay_count = existing.replay_count + 1 } in
          (
            outcome counted true,
            save counted (
                add_trace
                  (record {
                    id = next_trace_id db;
                    task_id = existing.task_id;
                    plan_step_id = existing.plan_step_id;
                    status = replayed;
                    output_summary = existing_returned;
                    tool_call_id = existing.id;
                    authorization_id = some authorization.id;
                    approval_id = none;
                    fixture_id = none;
                    previous_status = some existing.status;
                  })
                  db),
          ))

  replay_with : Option ToolDefinition → AgentTask → ToolCallRecord → Db → ToolCallOutcome × Db
  unfolding replay_authorized
  replay_with none task existing db = (unknown_tool_error, db)
  replay_with (some d) task existing db =
      let (authorization, db') =
        authorize_tool_call p.registry task existing d (is_execution_pending existing.status) db in
      replay_authorized task existing d authorization db'

  pub replay_or_conflict :
      AgentTask → ToolCallRecord → (fingerprint : String) → Db → ToolCallOutcome × Db
  unfolding replay_with
  replay_or_conflict task existing fingerprint db =
      if not (existing.request_fingerprint == fingerprint)
      then (idempotency_conflict, db)
      else replay_with (get_tool p.registry existing.tool_name) task existing db

  -- What becomes of a new call when the policy does not allow it.
  refused_record : ToolCallRecord → ToolAuthorization → ℕ → ToolCallRecord
  refused_record r a now =
      if is_requires_approval a.decision
      then record r { status = awaiting_approval; error = some a.reason; completed_at = none }
      else record r { status = CallStatus.denied; error = some a.reason; completed_at = some now }

  after_authorization :
      AgentTask → ToolCallRecord → ToolDefinition → ToolAuthorization → Db → ToolCallOutcome × Db
  unfolding refused_record trace_and_save execute_authorized_record
  after_authorization task r d authorization db =
      if not (is_allowed authorization.decision)
      then (let (refused, db') =
            trace_and_save (decided authorization.decision) authorization.reason
              (some authorization) none (refused_record r authorization db.outside.clock) task.id
              db in
          (outcome refused false, db'))
      else (let (r', db') = execute_authorized_record p task r d authorization db in
          (outcome r' false, db'))

  pub proposed_record :
      AgentTask
      → ToolDefinition
      → Json
      → (key fingerprint : String) → Option ℕ
      → Db
      → ToolCallRecord
  proposed_record task d arguments key fingerprint plan_step_id db = record {
    id = suc (length db.tool_calls);
    task_id = task.id;
    plan_step_id = plan_step_id;
    trace_id = none;
    tool_name = d.name;
    permission = d.permission;
    effect = d.effect;
    idempotency_mode = d.idempotency_mode;
    repeat_policy = d.repeat_policy;
    idempotency_key = key;
    request_fingerprint = fingerprint;
    arguments_json = arguments;
    status = proposed;
    attempt_count = 0;
    replay_count = 0;
    output_json = none;
    error = none;
    provider_operation_id = none;
    reconciliation_status = none;
    reconciled_at = none;
    updated_at = db.outside.clock;
    started_at = none;
    completed_at = none;
  }

  -- The flush of the new row, which fails if the key is taken by now; else the call goes on.
  insert_or_replay :
      Option ToolCallRecord
      → AgentTask
      → ToolDefinition
      → Option RecordLinker
      → ToolCallRecord
      → Db
      → ToolCallOutcome × Db
  unfolding link_record replay_or_conflict after_authorization
  insert_or_replay (some existing) task d linker r db =
      replay_or_conflict task existing r.request_fingerprint (link_record linker existing db)
  insert_or_replay none task d linker r db =
      let db' = link_record linker r (record db { tool_calls = db.tool_calls ++ r ∷ [] }) in
      let (authorization, db'') = authorize_tool_call p.registry task r d true db' in
      after_authorization task r d authorization db''

  -- `others` is what other sessions commit between the lookup of the key and the flush.
  lookup_or_insert :
      Option ToolCallRecord
      → (others : Db → Db) → AgentTask
      → ToolDefinition
      → Json
      → (key fingerprint : String) → Option ℕ
      → Option RecordLinker
      → Db
      → ToolCallOutcome × Db
  unfolding link_record replay_or_conflict insert_or_replay proposed_record find_tool_call
  lookup_or_insert (some existing) others task d arguments key fingerprint step linker db =
      replay_or_conflict task existing fingerprint (link_record linker existing db)
  lookup_or_insert none others task d arguments key fingerprint step linker db =
      let db' = others db in
      insert_or_replay (find_tool_call db' task.id key) task d linker
        (proposed_record task d arguments key fingerprint step db') db'

  run_defined :
      Option ToolDefinition
      → (others : Db → Db) → AgentTask
      → Json
      → (fingerprint : String) → Option String
      → Option ℕ
      → Option RecordLinker
      → Db
      → ToolCallOutcome × Db
  unfolding resolve_key find_tool_call lookup_or_insert
  run_defined none others task arguments fingerprint requested step linker db =
      (unknown_tool_error, db)
  run_defined (some d) others task arguments fingerprint requested step linker db =
      let (key, db') = resolve_key d.idempotency_mode requested db in
      lookup_or_insert (find_tool_call db' task.id key) others task d arguments key fingerprint step
        linker db'

  pub run_tool_call :
      (others : Db → Db)
      → AgentTask
      → (tool_name : String) → Json
      → (requested_idempotency_key : Option String) → (plan_step_id : Option ℕ)
      → Option RecordLinker
      → Db
      → ToolCallOutcome × Db
  unfolding run_defined request_fingerprint
  run_tool_call others task tool_name arguments requested step linker db =
      run_defined (get_tool p.registry tool_name) others task arguments
        (request_fingerprint tool_name arguments step) requested step linker db

pub list_task_tool_calls : Db → (task_id : ℕ) → List ToolCallRecord
list_task_tool_calls db task_id = reverse (keep (λ c. c.task_id == task_id) db.tool_calls)
