-- ===== src/Loop/Names.antt =====
-- The texts that the columns of app/models.py keep for the values of enumerations.
use careerops_agent.Shared.{String}
use careerops_agent.Tool.Rows.{
  Permission, Effect, IdempotencyMode, no_key, operation_key, RepeatPolicy, always_allow,
  naturally_idempotent, business_unique, CallStatus, Decision, ReconciliationStatus,
}

abbrev pub permission_name : Permission → String
permission_name Permission.read = "read"
permission_name Permission.write = "write"

abbrev pub effect_name : Effect → String
effect_name Effect.read = "read"
effect_name Effect.internal_write = "internal_write"
effect_name Effect.external_write = "external_write"

abbrev pub mode_name : IdempotencyMode → String
mode_name no_key = "none"
mode_name operation_key = "operation_key"

abbrev pub policy_name : RepeatPolicy → String
policy_name always_allow = "always_allow"
policy_name naturally_idempotent = "naturally_idempotent"
policy_name business_unique = "business_unique"

abbrev pub status_name : CallStatus → String
status_name CallStatus.proposed = "proposed"
status_name CallStatus.authorized = "authorized"
status_name CallStatus.executing = "executing"
status_name CallStatus.succeeded = "succeeded"
status_name CallStatus.failed = "failed"
status_name CallStatus.denied = "denied"
status_name CallStatus.awaiting_approval = "awaiting_approval"
status_name CallStatus.outcome_unknown = "outcome_unknown"
status_name CallStatus.needs_review = "needs_review"

abbrev pub decision_name : Decision → String
decision_name Decision.allowed = "allowed"
decision_name Decision.denied = "denied"
decision_name Decision.requires_approval = "requires_approval"

-- No row keeps a status that an adapter made up.
abbrev pub reconciliation_name : ReconciliationStatus → String
reconciliation_name ReconciliationStatus.succeeded = "succeeded"
reconciliation_name ReconciliationStatus.not_found = "not_found"
reconciliation_name ReconciliationStatus.pending = "pending"
reconciliation_name _ = "unknown"
