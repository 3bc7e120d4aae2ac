-- ===== src/Tool/Recovery/Settled.antt =====
-- Recovery leaves no call in a state in which a process could have been working on it.
use careerops_agent.Shared.{
  Eq_text, ◌==◌, String, ◌≡◌, refl, Bool, true, false, Option, none, some, inl, inr, Bool-cases,
  Option-cases, if◌then◌else◌,
}
use careerops_agent.Tool.Rows.{
  safe_to_retry, confirmed_missing, CallStatus, proposed, ExecutionStatus, Message,
  ReconciliationStatus, succeeded, not_found, pending, unknown, unsupported, AgentTask,
  ToolCallRecord, ToolAuthorization, Db,
}
use careerops_agent.Tool.Tests.{is_allowed, is_requires_approval, is_external_write, save}
use careerops_agent.Tool.Registry.{
  ToolDefinition, ToolReconciler, ReconciliationResult, ReconcilerAnswer, answered, malformed,
  raised, get_tool,
}
use careerops_agent.Tool.Authorization.{authorize_tool_call}
use careerops_agent.Tool.Runtime.Replay.{Idle}
use careerops_agent.Tool.Execution.{Platform, call_status, retry_persisted_tool_call}
use careerops_agent.Tool.Recovery.Marks.{
  RecoveryAction, retried, retried_after_reconciliation, detail_or,
}
use careerops_agent.Tool.Recovery.Reconcile.{
  retry_decision, retry_missing, apply_reconciliation, after_answer, query_provider,
  reconcile_external_write,
}
use careerops_agent.Tool.Recovery.{
  mark_unknown, retry_internal, recover_by_status, recover_tool_call,
}

-- A call in one of these states belongs to a process that is working on it.
abbrev pub is_in_flight : CallStatus → Bool
is_in_flight CallStatus.proposed = true
is_in_flight CallStatus.authorized = true
is_in_flight CallStatus.executing = true
is_in_flight _ = false

call_status-settled : (x : ExecutionStatus) → is_in_flight (call_status x) ≡ false
call_status-settled ExecutionStatus.success = refl
call_status-settled _ = refl

module _ (p : Platform) (task : AgentTask) (r : ToolCallRecord) (previous : CallStatus) where
  retry-settled :
      (d : ToolDefinition) (action : RecoveryAction) (reason : Message) (db : Db)
      → get_tool p.registry r.tool_name ≡ some d
      → is_in_flight (retry_decision p task r previous action reason db).0.status ≡ false
  unfolding retry_decision retry_persisted_tool_call
  retry-settled d action reason db e = rw e (call_status-settled _)

  retry_missing-settled :
      (a : ToolAuthorization) (d : ToolDefinition) (detail : Option String) (db : Db)
      → get_tool p.registry r.tool_name ≡ some d
      → is_in_flight (retry_missing p a task r previous detail db).0.status ≡ false
  unfolding retry_missing
  retry_missing-settled a d detail db e = elim (Bool-cases (is_allowed a.decision)) [
    | inl ok ↦
        rw ok
          (retry-settled d retried_after_reconciliation (detail_or detail confirmed_missing) db e)
    | inr no_retry ↦ elim (Bool-cases (is_requires_approval a.decision)) [
      | inl asks ↦ rw (no_retry, asks)
      | inr refuses ↦ rw (no_retry, refuses)
    ]
  ]

module _ (p : Platform) (task : AgentTask) (r : ToolCallRecord) (previous : CallStatus) where
  applied-settled :
      (result : ReconciliationResult) (status : ReconciliationStatus) (d : ToolDefinition) (db : Db)
      → get_tool p.registry r.tool_name ≡ some d
      → is_in_flight (apply_reconciliation p result status task r d previous db).0.status ≡ false
  unfolding apply_reconciliation
  applied-settled result unsupported d db e = refl
  applied-settled result succeeded d db e = refl
  applied-settled result not_found d db e =
      let queried = record r {
        reconciliation_status = some not_found;
        reconciled_at = some db.outside.clock;
      } in
      let (a, db') = authorize_tool_call p.registry task queried d true (save queried db) in
      retry_missing-settled p task queried previous a d result.detail db' e
  applied-settled result pending d db e = refl
  applied-settled result unknown d db e = refl

  answered-settled :
      (answer : ReconcilerAnswer) (d : ToolDefinition) (db : Db)
      → get_tool p.registry r.tool_name ≡ some d
      → is_in_flight (after_answer p answer task r d previous db).0.status ≡ false
  unfolding after_answer
  answered-settled (answered result) d db e = applied-settled result result.status d db e
  answered-settled malformed d db e = refl
  answered-settled (raised x) d db e = refl

  queried-settled :
      (reconciler : ToolReconciler) (operation : Option String) (d : ToolDefinition) (db : Db)
      → get_tool p.registry r.tool_name ≡ some d
      → is_in_flight (query_provider p reconciler operation task r d previous db).0.status ≡ false
  unfolding query_provider
  queried-settled reconciler none d db e = refl
  queried-settled reconciler (some op) d db e = elim (Bool-cases (op == "")) [
    | inl blank ↦ rw blank
    | inr usable ↦
        let (answer, world) = reconciler task op db.outside in
        rw usable (answered-settled answer d (record db { outside = world }) e)
  ]

  reconciled-settled :
      (found : Option ToolDefinition) (db : Db)
      → get_tool p.registry r.tool_name ≡ found
      → is_in_flight (reconcile_external_write p found task r previous db).0.status ≡ false
  unfolding reconcile_external_write
  reconciled-settled none db e = refl
  reconciled-settled (some d) db e = elim (Option-cases d.reconciler) [
    | inl absent ↦ simp absent
    | inr (reconciler, adapter) ↦
        simp adapter (queried-settled reconciler r.provider_operation_id d db e)
  ]

  internal-settled :
      (found : Option ToolDefinition) (db : Db)
      → get_tool p.registry r.tool_name ≡ found
      → is_in_flight (retry_internal p found task r previous db).0.status ≡ false
  unfolding retry_internal
  internal-settled none db e = refl
  internal-settled (some d) db e =
      let (a, db') = authorize_tool_call p.registry task r d true db in
      elim (Bool-cases (is_allowed a.decision)) [
        | inl ok ↦ rw ok (retry-settled p task r previous d retried safe_to_retry db' e)
        | inr refuses ↦ rw refuses
      ]

  other-settled :
      (db : Db)
      → is_in_flight
          (if is_external_write r.effect
            then mark_unknown p r previous db
            else retry_internal p (get_tool p.registry r.tool_name) task r previous db).0.status
        ≡ false
  unfolding mark_unknown
  other-settled db = elim (Bool-cases (is_external_write r.effect)) [
    | inl external ↦ rw external
    | inr internal ↦ rw internal (internal-settled (get_tool p.registry r.tool_name) db refl)
  ]

by_status :
    (p : Platform) (task : AgentTask) (r : ToolCallRecord) (status : CallStatus) (db : Db)
    → is_in_flight (recover_by_status p status task r db).0.status ≡ false
unfolding recover_by_status
by_status p task r CallStatus.proposed db = refl
by_status p task r CallStatus.outcome_unknown db =
    reconciled-settled p task r CallStatus.outcome_unknown (get_tool p.registry r.tool_name) db refl
by_status p task r status db = other-settled p task r status db

-- Whatever the state of the call, recovery ends with a decision whose status is none of "proposed",
-- "authorized" and "executing".
pub recover-settled :
    (p : Platform) (task : AgentTask) (r : ToolCallRecord) (db : Db)
    → is_in_flight (recover_tool_call p task r db).0.status ≡ false
unfolding recover_tool_call
recover-settled p task r db = by_status p task r r.status db

-- A stale call that had not reached authorization is only marked for review.
pub recover-proposed :
    (p : Platform) (task : AgentTask) (r : ToolCallRecord) (db : Db)
    → r.status ≡ proposed
    → ((recover_tool_call p task r db).0.action ≡ RecoveryAction.needs_review)
      × Idle db (recover_tool_call p task r db).1
unfolding recover_tool_call
recover-proposed p task r db e = simp e (refl, (refl, refl))
