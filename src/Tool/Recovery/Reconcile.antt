-- ===== src/Tool/Recovery/Reconcile.antt =====
-- app/services/tool_recovery.py: what the provider knows of an external write.
use careerops_agent.Shared.{
  ◌==◌, String, true, Option, none, some, if◌then◌else◌, Eq_nat, Eq_text, or_else,
}
use careerops_agent.Tool.Rows.{
  CallStatus, ReconciliationStatus, not_found, unknown, unsupported, Message, no_adapter,
  no_operation_id, reconciliation_failed, provider_confirmed, fresh_approval_required,
  retry_not_authorized, confirmed_missing, not_terminal, AgentTask, ToolCallRecord,
  ToolAuthorization, TraceStatus, reconciled, Db,
}
use careerops_agent.Tool.Tests.{is_allowed, is_requires_approval, save}
use careerops_agent.Tool.Registry.{
  ToolDefinition, ToolReconciler, ReconciliationResult, ReconcilerAnswer, answered, malformed,
  raised,
}
use careerops_agent.Tool.Authorization.{authorize_tool_call}
use careerops_agent.Tool.Execution.{Platform, retry_persisted_tool_call}
use careerops_agent.Tool.Recovery.Marks.{
  RecoveryAction, retried_after_reconciliation, reconciled_succeeded, RecoveryDecision, decision,
  add_recovery_trace, mark_for_review, keep_reconciliation_pending, detail_or,
}

module _ (p : Platform) where
  -- The retry, whose record is the one that the decision reports.
  unfoldable pub retry_decision :
      AgentTask
      → ToolCallRecord
      → CallStatus
      → RecoveryAction
      → Message
      → Db
      → RecoveryDecision × Db
  retry_decision task r previous action reason db =
      let (done, db') = retry_persisted_tool_call p task r db in
      (decision (or_else done r) previous action reason, db')

  -- The provider knows no such operation.
  unfoldable pub retry_missing :
      ToolAuthorization
      → AgentTask
      → ToolCallRecord
      → CallStatus
      → Option String
      → Db
      → RecoveryDecision × Db
  unfolding add_recovery_trace mark_for_review retry_decision
  retry_missing a task r previous detail db =
      if is_allowed a.decision
      then retry_decision task r previous retried_after_reconciliation
          (detail_or detail confirmed_missing) db
      else if is_requires_approval a.decision
      then (let waiting = record r {
        status = CallStatus.awaiting_approval;
        error = some fresh_approval_required;
      } in
          (
            decision waiting previous RecoveryAction.awaiting_approval fresh_approval_required,
            save waiting (
                add_recovery_trace waiting TraceStatus.awaiting_approval fresh_approval_required
                  previous db),
          ))
      else mark_for_review r previous (retry_not_authorized a.reason) db

  -- The branches on a supported answer.
  unfoldable pub apply_reconciliation :
      ReconciliationResult
      → ReconciliationStatus
      → AgentTask
      → ToolCallRecord
      → ToolDefinition
      → CallStatus
      → Db
      → RecoveryDecision × Db
  unfolding add_recovery_trace keep_reconciliation_pending retry_missing
  apply_reconciliation result unsupported task r d previous db =
      keep_reconciliation_pending r previous unknown (reconciliation_failed "ValueError") db
  apply_reconciliation result ReconciliationStatus.succeeded task r d previous db =
      let done = record r {
        status = CallStatus.succeeded;
        reconciliation_status = some ReconciliationStatus.succeeded;
        reconciled_at = some db.outside.clock;
        output_json = result.output;
        error = none;
        completed_at = some db.outside.clock;
      } in
      let reason = detail_or result.detail provider_confirmed in
      (
        decision done previous reconciled_succeeded reason,
        save done (add_recovery_trace done reconciled reason previous db),
      )
  apply_reconciliation result not_found task r d previous db =
      let queried = record r {
        reconciliation_status = some not_found;
        reconciled_at = some db.outside.clock;
      } in
      let (a, db') = authorize_tool_call p.registry task queried d true (save queried db) in
      retry_missing a task queried previous result.detail db'
  apply_reconciliation result status task r d previous db =
      keep_reconciliation_pending r previous status (detail_or result.detail not_terminal) db

  unfoldable pub after_answer :
      ReconcilerAnswer
      → AgentTask
      → ToolCallRecord
      → ToolDefinition
      → CallStatus
      → Db
      → RecoveryDecision × Db
  unfolding apply_reconciliation
  after_answer (answered result) task r d previous db =
      apply_reconciliation result result.status task r d previous db
  after_answer malformed task r d previous db =
      keep_reconciliation_pending r previous unknown (reconciliation_failed "TypeError") db
  after_answer (raised exception) task r d previous db =
      keep_reconciliation_pending r previous unknown (reconciliation_failed exception) db

  unfoldable pub query_provider :
      ToolReconciler
      → Option String
      → AgentTask
      → ToolCallRecord
      → ToolDefinition
      → CallStatus
      → Db
      → RecoveryDecision × Db
  unfolding mark_for_review after_answer
  query_provider reconciler none task r d previous db =
      mark_for_review r previous no_operation_id db
  query_provider reconciler (some operation) task r d previous db =
      if operation == ""
      then mark_for_review r previous no_operation_id db
      else (let (answer, world) = reconciler task operation db.outside in
          after_answer answer task r d previous (record db { outside = world }))

  unfoldable pub reconcile_external_write :
      Option ToolDefinition → AgentTask → ToolCallRecord → CallStatus → Db → RecoveryDecision × Db
  unfolding mark_for_review query_provider
  reconcile_external_write none task r previous db = mark_for_review r previous no_adapter db
  reconcile_external_write (some d) task r previous db = elim d.reconciler [
    | none ↦ mark_for_review r previous no_adapter db
    | some reconciler ↦ query_provider reconciler r.provider_operation_id task r d previous db
  ]
