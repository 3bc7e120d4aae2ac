-- ===== src/Tool/Rows.antt =====
-- The rows of app/models.py that the tool runtime reads and writes. A text that the program formats
-- is a constructor of `Message` with the holes of the format string as its arguments.
use careerops_agent.Shared.{ℕ, String, Bool, Option, List}

-- The JSON values that tools take and return.
mutual
  pub data Json : Type 0 where
    null : Json
    bool : Bool → Json
    num : ℕ → Json
    str : String → Json
    arr : Items → Json
    obj : Fields → Json

  pub data Items : Type 0 where
    nil : Items
    cons : Json → Items → Items

  pub data Fields : Type 0 where
    end : Fields
    field : String → Json → Fields → Fields

pub data Permission : Type 0 where
  read write : Permission

pub data Effect : Type 0 where
  read internal_write external_write : Effect

pub data IdempotencyMode : Type 0 where
  no_key operation_key : IdempotencyMode

pub data RepeatPolicy : Type 0 where
  always_allow naturally_idempotent business_unique : RepeatPolicy

-- `ToolCallStatus`
pub data CallStatus : Type 0 where
  proposed authorized executing succeeded failed denied : CallStatus
  awaiting_approval outcome_unknown needs_review : CallStatus

pub data Decision : Type 0 where
  allowed denied requires_approval : Decision

pub data ExecutionStatus : Type 0 where
  success error denied outcome_unknown : ExecutionStatus

-- `unsupported` stands for every other value that an adapter may put into the field.
pub data ReconciliationStatus : Type 0 where
  succeeded not_found pending unknown unsupported : ReconciliationStatus

pub data Message : Type 0 where
  -- what a handler, a validator or a provider said
  text : String → Message
  -- a missing message, formatted
  none_text : Message
  -- authorization.py
  not_allowed : (tool : String) (version : ℕ) → Message
  one_time_approval : (approval : ℕ) (actor : String) → Message
  approval_required : (tool : String) → Message
  policy_allows : (version : ℕ) (tool : String) → Message
  -- tools.py
  unknown_tool : Message
  permission_required : Permission → Message
  uncertain_not_external : Message
  execution_failed : (exception : String) → Message
  -- tool_runtime.py
  tool_returned : (tool : String) → Message
  tool_not_returned : (tool : String) → ExecutionStatus → Message → Message
  recovered_tool : (tool : String) → Message
  recovery_attempt : ExecutionStatus → Message → Message
  existing_returned : Message
  -- tool_approval.py
  approval_granted_by : (actor : String) (expires_at : ℕ) → Message
  -- tool_recovery.py
  stopped_before_authorization : Message
  external_may_have_succeeded : Message
  marked_unknown : Message
  no_longer_registered : Message
  recovery_not_authorized : Message → Message
  safe_to_retry : Message
  no_adapter : Message
  no_operation_id : Message
  reconciliation_failed : (exception : String) → Message
  provider_confirmed : Message
  fresh_approval_required : Message
  retry_not_authorized : Message → Message
  confirmed_missing : Message
  not_terminal : Message

pub record AgentTask : Type 0 where
  pub id : ℕ
  pub goal_contract_id : ℕ

-- `updated_at` is set by the database at every write of the row.
pub record ToolCallRecord : Type 0 where
  pub id : ℕ
  pub task_id : ℕ
  pub plan_step_id : Option ℕ
  pub trace_id : Option ℕ
  pub tool_name : String
  pub permission : Permission
  pub effect : Effect
  pub idempotency_mode : IdempotencyMode
  pub repeat_policy : RepeatPolicy
  pub idempotency_key : String
  pub request_fingerprint : String
  pub arguments_json : Json
  pub status : CallStatus
  pub attempt_count : ℕ
  pub replay_count : ℕ
  pub output_json : Option Json
  pub error : Option Message
  pub provider_operation_id : Option String
  pub reconciliation_status : Option ReconciliationStatus
  pub reconciled_at : Option ℕ
  pub updated_at : ℕ
  pub started_at : Option ℕ
  pub completed_at : Option ℕ

pub record TaskPolicy : Type 0 where
  pub id : ℕ
  pub task_id : ℕ
  pub version : ℕ
  pub allowed_tools : List String
  pub external_writes_require_approval : Bool

-- `policy_snapshot` is the last three fields.
pub record ToolAuthorization : Type 0 where
  pub id : ℕ
  pub task_id : ℕ
  pub tool_call_id : ℕ
  pub policy_id : ℕ
  pub policy_version : ℕ
  pub tool_name : String
  pub permission : Permission
  pub effect : Effect
  pub decision : Decision
  pub reason : Message
  pub actor_id : Option String
  pub approval_id : Option ℕ
  pub allowed_tools : List String
  pub external_writes_require_approval : Bool
  pub require_execution_approval : Bool

pub record ToolApproval : Type 0 where
  pub id : ℕ
  pub task_id : ℕ
  pub tool_call_id : ℕ
  pub active_slot : Option ℕ
  pub actor_id : String
  pub tool_name : String
  pub idempotency_key : String
  pub request_fingerprint : String
  pub expires_at : ℕ
  pub consumed_at : Option ℕ
  pub revoked_at : Option ℕ

-- The path and the digest of the copied database file are left out.
pub record ToolReplayFixture : Type 0 where
  pub id : ℕ
  pub task_id : ℕ
  pub tool_call_id : ℕ
  pub attempt_number : ℕ

pub data TraceStatus : Type 0 where
  decided : Decision → TraceStatus
  executed : ExecutionStatus → TraceStatus
  recovered replayed approval_granted reconciled reconciliation_pending : TraceStatus
  outcome_unknown awaiting_approval needs_review : TraceStatus

-- An `ExecutionTrace` with the event type "tool_call". `metadata_json` copies fields of the call,
-- of its authorization and of the fixture; the last five fields here name what it copies.
pub record ExecutionTrace : Type 0 where
  pub id : ℕ
  pub task_id : ℕ
  pub plan_step_id : Option ℕ
  pub status : TraceStatus
  pub output_summary : Message
  pub tool_call_id : ℕ
  pub authorization_id : Option ℕ
  pub approval_id : Option ℕ
  pub fixture_id : Option ℕ
  pub previous_status : Option CallStatus

pub record PlanStep : Type 0 where
  pub id : ℕ
  pub task_id : ℕ
  pub sequence : ℕ
  pub title : String
  pub status : String
  pub agent_capability : String
  pub success_criterion : String
  pub goal_connection : String
  pub learning_outcome : String
  pub result_summary : Option String

-- The link from an agent step to its call.
pub record AgentRunStep : Type 0 where
  pub id : ℕ
  pub tool_call_id : Option ℕ

-- What lies outside the database: the clock that `datetime.utcnow` reads, and the operations that
-- external providers have carried out.
pub record Outside : Type 0 where
  pub clock : ℕ
  pub provider : List String

-- The database, and what lies outside it. No row of these tables is deleted, so the next primary
-- key is one more than the number of rows. `uuids` counts the draws of `uuid4`.
pub record Db : Type 0 where
  pub outside : Outside
  pub uuids : ℕ
  pub plan_steps : List PlanStep
  pub run_steps : List AgentRunStep
  pub policies : List TaskPolicy
  pub tool_calls : List ToolCallRecord
  pub authorizations : List ToolAuthorization
  pub approvals : List ToolApproval
  pub fixtures : List ToolReplayFixture
  pub traces : List ExecutionTrace
