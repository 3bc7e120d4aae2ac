-- ===== src/Tool/Recovery.antt =====
-- app/services/tool_recovery.py: what becomes of calls that a stopped process left behind.
pub mod Examples
pub mod Marks
pub mod Reconcile
pub mod Safety
pub mod Settled
use careerops_agent.Shared.{
  ℕ, suc, ◌+◌, ◌-◌, String, Bool, true, false, not, ◌&&◌, Option, none, some, List, [], ◌∷◌, ◌++◌,
  length, first, keep, leb, if◌then◌else◌, ◌==◌, Eq_nat, Eq_text, or_else,
}
use careerops_agent.Shared.Text.{is_blank}
use careerops_agent.Tool.Rows.{
  Json, CallStatus, proposed, Effect, Decision, ReconciliationStatus, not_found, pending, unknown,
  unsupported, Message, text, stopped_before_authorization, external_may_have_succeeded,
  marked_unknown, no_longer_registered, recovery_not_authorized, safe_to_retry, no_adapter,
  no_operation_id, reconciliation_failed, provider_confirmed, fresh_approval_required,
  retry_not_authorized, confirmed_missing, not_terminal, AgentTask, ToolCallRecord,
  ToolAuthorization, TraceStatus, reconciled, ExecutionTrace, Outside, Db,
}
use careerops_agent.Tool.Tests.{
  is_external_write, is_allowed, is_requires_approval, is_recoverable, save, add_trace,
  next_trace_id, find_call,
}
use careerops_agent.Tool.Registry.{
  ToolDefinition, ToolReconciler, ReconciliationResult, ReconcilerAnswer, answered, malformed,
  raised, Registry, get_tool,
}
use careerops_agent.Tool.Authorization.{authorize_tool_call}
use careerops_agent.Tool.Execution.{Platform, retry_persisted_tool_call}
use careerops_agent.Tool.Recovery.Marks.{
  RecoveryAction, retried, retried_after_reconciliation, reconciled_succeeded,
  marked_outcome_unknown, RecoveryDecision, decision, add_recovery_trace, mark_for_review,
  keep_reconciliation_pending, detail_or,
}
use careerops_agent.Tool.Recovery.Reconcile.{retry_decision, reconcile_external_write}

module _ (p : Platform) where
  -- The retry of a read or of an internal write.
  retry_internal :
      Option ToolDefinition → AgentTask → ToolCallRecord → CallStatus → Db → RecoveryDecision × Db
  unfolding mark_for_review retry_decision
  retry_internal none task r previous db = mark_for_review r previous no_longer_registered db
  retry_internal (some d) task r previous db =
      let (a, db') = authorize_tool_call p.registry task r d true db in
      if is_allowed a.decision
      then retry_decision p task r previous retried safe_to_retry db'
      else mark_for_review r previous (recovery_not_authorized a.reason) db'

  mark_unknown : ToolCallRecord → CallStatus → Db → RecoveryDecision × Db
  unfolding add_recovery_trace
  mark_unknown r previous db =
      let marked = record r {
        status = CallStatus.outcome_unknown;
        error = some external_may_have_succeeded;
      } in
      (
        decision marked previous marked_outcome_unknown external_may_have_succeeded,
        save marked
            (add_recovery_trace marked TraceStatus.outcome_unknown marked_unknown previous db),
      )

  recover_by_status : CallStatus → AgentTask → ToolCallRecord → Db → RecoveryDecision × Db
  unfolding mark_for_review reconcile_external_write mark_unknown retry_internal
  recover_by_status proposed task r db = mark_for_review r proposed stopped_before_authorization db
  recover_by_status CallStatus.outcome_unknown task r db =
      reconcile_external_write p (get_tool p.registry r.tool_name) task r CallStatus.outcome_unknown
        db
  recover_by_status status task r db =
      if is_external_write r.effect
      then mark_unknown r status db
      else retry_internal (get_tool p.registry r.tool_name) task r status db

  unfoldable pub recover_tool_call : AgentTask → ToolCallRecord → Db → RecoveryDecision × Db
  unfolding recover_by_status
  recover_tool_call task r db = recover_by_status r.status task r db

  -- The session loads a row again after each commit.
  recover_all : AgentTask → List ToolCallRecord → Db → List RecoveryDecision × Db
  unfolding recover_tool_call
  recover_all task [] db = ([], db)
  recover_all task (r ∷ rows) db =
      let (d, db') = recover_tool_call task (or_else (find_call r.id db) r) db in
      let (ds, db'') = recover_all task rows db' in (d ∷ ds, db'')

abbrev pub is_recovered : RecoveryAction → Bool
is_recovered retried = true
is_recovered reconciled_succeeded = true
is_recovered retried_after_reconciliation = true
is_recovered _ = false

pub record RecoveryReport : Type 0 where
  pub task_id : ℕ
  pub stale_before : ℕ
  pub scanned_count : ℕ
  pub recovered_count : ℕ
  pub decisions : List RecoveryDecision

-- Rows stand in the order of their ids.
pub stale_calls : AgentTask → (stale_before : ℕ) → Db → List ToolCallRecord
stale_calls task stale_before db =
    keep (λ c. c.task_id == task.id && is_recoverable c.status && leb c.updated_at stale_before)
      db.tool_calls

pub recover_stale_tool_calls :
    Platform → AgentTask → (stale_after_seconds : ℕ) → Db → RecoveryReport × Db
unfolding recover_all stale_calls
recover_stale_tool_calls p task stale_after_seconds db =
    let stale_before = db.outside.clock - stale_after_seconds in
    let records = stale_calls task stale_before db in
    let (decisions, db') = recover_all p task records db in
    (
      record {
        task_id = task.id;
        stale_before = stale_before;
        scanned_count = length records;
        recovered_count = length (keep (λ d. is_recovered d.action) decisions);
        decisions = decisions;
      },
      db',
    )
