-- ===== src/Tool/Recovery/Marks.antt =====
-- app/services/tool_recovery.py: the decisions, and the calls that a person has to look at.
use careerops_agent.Shared.{ℕ, String, Option, none, some, if◌then◌else◌, ◌==◌, Eq_nat, Eq_text}
use careerops_agent.Tool.Rows.{
  CallStatus, ReconciliationStatus, Message, text, ToolCallRecord, TraceStatus, Db,
}
use careerops_agent.Tool.Tests.{save, add_trace, next_trace_id}

pub data RecoveryAction : Type 0 where
  needs_review marked_outcome_unknown retried reconciled_succeeded awaiting_approval :
      RecoveryAction
  retried_after_reconciliation reconciliation_pending : RecoveryAction

pub record RecoveryDecision : Type 0 where
  pub tool_call_id : ℕ
  pub previous_status : CallStatus
  pub status : CallStatus
  pub action : RecoveryAction
  pub reason : Message

abbrev pub decision : ToolCallRecord → CallStatus → RecoveryAction → Message → RecoveryDecision
decision r previous action reason = record {
  tool_call_id = r.id;
  previous_status = previous;
  status = r.status;
  action = action;
  reason = reason;
}

-- `reconciliation_status` in the metadata is the field of the record.
unfoldable pub add_recovery_trace : ToolCallRecord → TraceStatus → Message → CallStatus → Db → Db
add_recovery_trace r status summary previous db =
    add_trace
      (record {
        id = next_trace_id db;
        task_id = r.task_id;
        plan_step_id = r.plan_step_id;
        status = status;
        output_summary = summary;
        tool_call_id = r.id;
        authorization_id = none;
        approval_id = none;
        fixture_id = none;
        previous_status = some previous;
      })
      db

unfoldable pub mark_for_review : ToolCallRecord → CallStatus → Message → Db → RecoveryDecision × Db
unfolding add_recovery_trace
mark_for_review r previous reason db =
    let marked = record r { status = CallStatus.needs_review; error = some reason } in
    (
      decision marked previous RecoveryAction.needs_review reason,
      save marked (add_recovery_trace marked TraceStatus.needs_review reason previous db),
    )

unfoldable pub keep_reconciliation_pending :
    ToolCallRecord → CallStatus → ReconciliationStatus → Message → Db → RecoveryDecision × Db
unfolding add_recovery_trace
keep_reconciliation_pending r previous status reason db =
    let waiting = record r {
      status = CallStatus.outcome_unknown;
      reconciliation_status = some status;
      reconciled_at = some db.outside.clock;
      error = some reason;
    } in
    (
      decision waiting previous RecoveryAction.reconciliation_pending reason,
      save waiting
          (add_recovery_trace waiting TraceStatus.reconciliation_pending reason previous db),
    )

-- `result.detail or default`
abbrev pub detail_or : Option String → Message → Message
detail_or none default = default
detail_or (some detail) default = if detail == "" then default else text detail
