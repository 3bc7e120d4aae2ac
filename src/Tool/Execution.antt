-- ===== src/Tool/Execution.antt =====
-- app/services/tool_runtime.py: one attempt at a tool call, first or repeated.
use mathlib.Core.Option
use careerops_agent.Shared.{
  ℕ, suc, ◌+◌, String, Bool, ◌&&◌, Option, none, some, List, [], ◌∷◌, ◌++◌, length, if◌then◌else◌,
  Eq_nat, Eq_text,
}
use careerops_agent.Tool.Rows.{
  Json, CallStatus, authorized, executing, succeeded, failed, outcome_unknown, ExecutionStatus,
  Message, none_text, tool_returned, tool_not_returned, recovered_tool, recovery_attempt, AgentTask,
  ToolCallRecord, ToolAuthorization, ToolReplayFixture, TraceStatus, executed, recovered,
  AgentRunStep, Db,
}
use careerops_agent.Tool.Tests.{is_internal_write, save, add_trace, next_trace_id}
use careerops_agent.Tool.Registry.{ToolDefinition, ToolExecution, Registry, get_tool, execute_tool}

abbrev pub RecordLinker : Type 0
RecordLinker = ToolCallRecord → List AgentRunStep → List AgentRunStep

-- What the runtime takes from elsewhere: the registered tools, the SHA-256 digest of the canonical
-- JSON text of a request, the text of the n-th `uuid4`, and whether the database is a SQLite file.
pub record Platform : Type 0 where
  pub registry : Registry
  pub digest : (tool_name : String) → Json → (plan_step_id : Option ℕ) → String
  pub uuid_hex : ℕ → String
  pub on_file : Bool

-- app/services/replay_fixture.py: an internal write on a database file keeps a copy of its
-- before-state.
unfoldable pub capture_tool_before_state :
    Bool → ToolCallRecord → Db → Option ToolReplayFixture × Db
capture_tool_before_state on_file r db =
    if is_internal_write r.effect && on_file
    then (let fixture : ToolReplayFixture = record {
      id = suc (length db.fixtures);
      task_id = r.task_id;
      tool_call_id = r.id;
      attempt_number = r.attempt_count;
    } in
        (some fixture, record db { fixtures = db.fixtures ++ fixture ∷ [] }))
    else (none, db)

abbrev pub fixture_id_of : Option ToolReplayFixture → Option ℕ
fixture_id_of none = none
fixture_id_of (some f) = some f.id

-- The status that an execution leaves in its record.
abbrev pub call_status : ExecutionStatus → CallStatus
call_status ExecutionStatus.success = succeeded
call_status ExecutionStatus.error = failed
call_status ExecutionStatus.denied = CallStatus.denied
call_status ExecutionStatus.outcome_unknown = outcome_unknown

abbrev pub completed_after : ExecutionStatus → ℕ → Option ℕ
completed_after ExecutionStatus.outcome_unknown now = none
completed_after _ now = some now

abbrev pub error_text : Option Message → Message
error_text none = none_text
error_text (some m) = m

abbrev pub executed_summary : ToolExecution → ExecutionStatus → Message
executed_summary x ExecutionStatus.success = tool_returned x.tool_name
executed_summary x status = tool_not_returned x.tool_name status (error_text x.error)

abbrev pub retried_summary : ToolCallRecord → ToolExecution → ExecutionStatus → Message
retried_summary r x ExecutionStatus.success = recovered_tool r.tool_name
retried_summary r x status = recovery_attempt status (error_text x.error)

abbrev pub retried_status : ExecutionStatus → TraceStatus
retried_status ExecutionStatus.success = recovered
retried_status status = executed status

-- The assignments that follow `execute_tool`.
abbrev pub with_execution : ToolCallRecord → ToolExecution → ℕ → ToolCallRecord
with_execution r x now = record r {
  status = call_status x.status;
  arguments_json = x.arguments;
  output_json = x.output;
  error = x.error;
  provider_operation_id = x.provider_operation_id;
  completed_at = completed_after x.status now;
}

-- Adds the trace, writes its id into the record and commits.
unfoldable pub trace_and_save :
    TraceStatus
    → Message
    → Option ToolAuthorization
    → Option ToolReplayFixture
    → ToolCallRecord
    → (task_id : ℕ) → Db
    → ToolCallRecord × Db
trace_and_save status summary authorization fixture r task_id db =
    let linked = record r { trace_id = some (next_trace_id db) } in
    (
      linked,
      save linked (
          add_trace
            (record {
              id = next_trace_id db;
              task_id = task_id;
              plan_step_id = r.plan_step_id;
              status = status;
              output_summary = summary;
              tool_call_id = r.id;
              authorization_id = Option.map (λ a. a.id) authorization;
              approval_id = Option.bind authorization (λ a. a.approval_id);
              fixture_id = fixture_id_of fixture;
              previous_status = none;
            })
            db),
    )

module _ (p : Platform) where
  -- One run of the tool of a call, between two commits.
  unfoldable pub run_tool : AgentTask → ToolDefinition → ToolCallRecord → Db → ToolExecution × Db
  run_tool task d r db =
      let (execution, rows, world) =
        execute_tool p.registry task d.name r.arguments_json (d.permission ∷ []) db.plan_steps
          db.outside in
      (execution, record db { plan_steps = rows; outside = world })

  -- The run of a call that is committed as "executing", up to the assignments of its result.
  unfoldable pub run_executing :
      AgentTask
      → ToolDefinition
      → ToolCallRecord
      → Db
      → ToolExecution × Option ToolReplayFixture × Db
  unfolding capture_tool_before_state run_tool
  run_executing task d r db =
      let (fixture, db') = capture_tool_before_state p.on_file r (save r db) in
      let (execution, db'') = run_tool task d r db' in (execution, fixture, db'')

  unfoldable pub execute_authorized_record :
      AgentTask → ToolCallRecord → ToolDefinition → ToolAuthorization → Db → ToolCallRecord × Db
  unfolding run_executing trace_and_save
  execute_authorized_record task r d authorization db =
      let authorized_r = record r { status = authorized; error = none } in
      let executing_r = record authorized_r {
        status = executing;
        attempt_count = r.attempt_count + 1;
        started_at = some db.outside.clock;
      } in
      let (execution, fixture, db') = run_executing task d executing_r (save authorized_r db) in
      trace_and_save (executed execution.status) (executed_summary execution execution.status)
        (some authorization) fixture (with_execution executing_r execution db'.outside.clock)
        task.id db'

  -- `none` is `UnknownToolError`.
  unfoldable pub retry_with :
      Option ToolDefinition → AgentTask → ToolCallRecord → Db → Option ToolCallRecord × Db
  unfolding run_executing trace_and_save
  retry_with none task r db = (none, db)
  retry_with (some d) task r db =
      let executing_r = record r {
        status = executing;
        attempt_count = r.attempt_count + 1;
        started_at = some db.outside.clock;
        completed_at = none;
        error = none;
      } in
      let (execution, fixture, db') = run_executing task d executing_r db in
      let (done, db'') =
        trace_and_save (retried_status execution.status)
          (retried_summary executing_r execution execution.status) none fixture
          (with_execution executing_r execution db'.outside.clock) task.id db' in
      (some done, db'')

  unfoldable pub retry_persisted_tool_call :
      AgentTask → ToolCallRecord → Db → Option ToolCallRecord × Db
  unfolding retry_with
  retry_persisted_tool_call task r db = retry_with (get_tool p.registry r.tool_name) task r db
