-- ===== src/Tool/Tests.antt =====
-- Tests on the enumerations of the tool runtime, and the writes of its tables.
use careerops_agent.Shared.{
  ℕ, suc, Bool, true, false, Option, [], ◌∷◌, ◌++◌, length, first, update_where, ◌==◌, Eq_nat,
}
use careerops_agent.Tool.Rows.{
  Effect, CallStatus, Permission, Decision, ToolCallRecord, ExecutionTrace, Db,
}

abbrev pub is_external_write : Effect → Bool
is_external_write Effect.external_write = true
is_external_write _ = false

abbrev pub is_internal_write : Effect → Bool
is_internal_write Effect.internal_write = true
is_internal_write _ = false

abbrev pub permission_eq : Permission → Permission → Bool
permission_eq Permission.read Permission.read = true
permission_eq Permission.write Permission.write = true
permission_eq _ _ = false

abbrev pub is_allowed : Decision → Bool
is_allowed Decision.allowed = true
is_allowed _ = false

abbrev pub is_requires_approval : Decision → Bool
is_requires_approval Decision.requires_approval = true
is_requires_approval _ = false

-- status in {"awaiting_approval", "denied"}
abbrev pub is_execution_pending : CallStatus → Bool
is_execution_pending CallStatus.awaiting_approval = true
is_execution_pending CallStatus.denied = true
is_execution_pending _ = false

-- status in RECOVERABLE_STATUSES
abbrev pub is_recoverable : CallStatus → Bool
is_recoverable CallStatus.proposed = true
is_recoverable CallStatus.authorized = true
is_recoverable CallStatus.executing = true
is_recoverable CallStatus.outcome_unknown = true
is_recoverable _ = false

-- A commit of a call that the session holds: the row with its id is written.
abbrev pub save : ToolCallRecord → Db → Db
save r db = record db {
  tool_calls =
      update_where (λ c. c.id == r.id) (λ _. record r { updated_at = db.outside.clock })
        db.tool_calls;
}

abbrev pub add_trace : ExecutionTrace → Db → Db
add_trace t db = record db { traces = db.traces ++ t ∷ [] }

abbrev pub next_trace_id : Db → ℕ
next_trace_id db = suc (length db.traces)

abbrev pub find_call : ℕ → Db → Option ToolCallRecord
find_call i db = first (λ c. c.id == i) db.tool_calls
