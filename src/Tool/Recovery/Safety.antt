-- ===== src/Tool/Recovery/Safety.antt =====
-- When recovery runs an external write again.
use careerops_agent.Shared.{
  Bool, true, false, List, ap, Eq_text, ◌==◌, String, ◌≡◌, refl, Option, none, some, ◌⊎◌, inl, inr,
  Bool-cases, Option-cases,
}
use careerops_agent.Tool.Rows.{
  Outside, PlanStep, TraceStatus, Message, external_may_have_succeeded, CallStatus, authorized,
  executing, external_write, ReconciliationStatus, succeeded, not_found, pending, unknown,
  unsupported, AgentTask, ToolCallRecord, Db,
}
use careerops_agent.Tool.Tests.{is_external_write}
use careerops_agent.Tool.Saved.{IsStored, IsRecordedAs, save-IsRecordedAs}
use careerops_agent.Tool.Registry.{
  ToolDefinition, ToolReconciler, ReconciliationResult, ReconcilerAnswer, answered, malformed,
  raised, get_tool,
}
use careerops_agent.Tool.Execution.{Platform}
use careerops_agent.Tool.Runtime.Replay.{Idle}
use careerops_agent.Tool.Recovery.Marks.{
  RecoveryAction, RecoveryDecision, retried, retried_after_reconciliation, marked_outcome_unknown,
  add_recovery_trace, mark_for_review, keep_reconciliation_pending,
}
use careerops_agent.Tool.Recovery.Reconcile.{
  apply_reconciliation, after_answer, query_provider, reconcile_external_write,
}
use careerops_agent.Tool.Recovery.{mark_unknown, recover_by_status, recover_tool_call}

-- The actions that run a call.
abbrev pub is_retry : RecoveryAction → Bool
is_retry retried = true
is_retry retried_after_reconciliation = true
is_retry _ = false

marked_unknown :
    (p : Platform) (r : ToolCallRecord) (previous : CallStatus) (db : Db)
    → IsStored r.id db
    → let (decision, db') = mark_unknown p r previous db in
      (decision.action ≡ marked_outcome_unknown)
      × (decision.status ≡ CallStatus.outcome_unknown)
      × IsRecordedAs r.id CallStatus.outcome_unknown db'
      × Idle db db'
unfolding mark_unknown add_recovery_trace
marked_unknown p r previous db stored =
    let marked : ToolCallRecord = record r {
      status = CallStatus.outcome_unknown;
      error = some external_may_have_succeeded;
    } in
    (
      refl,
      refl,
      save-IsRecordedAs marked
          (add_recovery_trace marked TraceStatus.outcome_unknown Message.marked_unknown previous db)
          stored,
      (refl, refl),
    )

-- An external write that was authorized or running when the process stopped is not run again: the
-- stored call is marked as of unknown outcome, as the decision says, and neither the rows that tools
-- write nor the world outside change.
pub recover-external_unknown :
    (p : Platform) (task : AgentTask) (r : ToolCallRecord) (db : Db)
    → r.effect ≡ external_write
    → (r.status ≡ authorized) ⊎ (r.status ≡ executing)
    → IsStored r.id db
    → let (decision, db') = recover_tool_call p task r db in
      (decision.action ≡ marked_outcome_unknown)
      × (decision.status ≡ CallStatus.outcome_unknown)
      × IsRecordedAs r.id CallStatus.outcome_unknown db'
      × Idle db db'
unfolding recover_tool_call recover_by_status
recover-external_unknown p task r db effect (inl e) stored =
    simp (e, ap is_external_write effect) (marked_unknown p r authorized db stored)
recover-external_unknown p task r db effect (inr e) stored =
    simp (e, ap is_external_write effect) (marked_unknown p r executing db stored)

-- The decision did not run the call: what the tools write is as before, and the world is this one.
abbrev pub Kept : Outside → List PlanStep → RecoveryDecision × Db → Type 0
Kept world rows (d, db) =
    (is_retry d.action ≡ false) × (db.outside ≡ world) × (db.plan_steps ≡ rows)

module _ (p : Platform) (task : AgentTask) (r : ToolCallRecord) (d : ToolDefinition)
    (previous : CallStatus) where
  applied-missing :
      (result : ReconciliationResult) (status : ReconciliationStatus) (db : Db)
      → (status ≡ not_found)
        ⊎ Kept db.outside db.plan_steps (apply_reconciliation p result status task r d previous db)
  unfolding apply_reconciliation keep_reconciliation_pending add_recovery_trace
  applied-missing result unsupported db = inr (refl, refl, refl)
  applied-missing result succeeded db = inr (refl, refl, refl)
  applied-missing result not_found db = inl refl
  applied-missing result pending db = inr (refl, refl, refl)
  applied-missing result unknown db = inr (refl, refl, refl)

  answered-missing :
      (answer : ReconcilerAnswer) (db : Db)
      → ((result : ReconciliationResult) × (answer ≡ answered result) × (result.status ≡ not_found))
        ⊎ Kept db.outside db.plan_steps (after_answer p answer task r d previous db)
  unfolding after_answer keep_reconciliation_pending add_recovery_trace
  answered-missing (answered result) db = elim (applied-missing result result.status db) [
    | inl missing ↦ inl (result, refl, missing)
    | inr kept ↦ inr kept
  ]
  answered-missing malformed db = inr (refl, refl, refl)
  answered-missing (raised e) db = inr (refl, refl, refl)

-- The adapter of the tool, and the operation that the call recorded.
abbrev pub Asks : Platform → ToolCallRecord → ToolReconciler → (op : String) → Type 0
Asks p r reconciler op =
    (d : ToolDefinition) × (get_tool p.registry r.tool_name ≡ some d)
    × (d.reconciler ≡ some reconciler)
    × (r.provider_operation_id ≡ some op)

-- The provider was asked for the operation of the call, and has no such operation.
abbrev pub ProviderDenies : Platform → AgentTask → ToolCallRecord → Db → Type 0
ProviderDenies p task r db =
    (reconciler : ToolReconciler) × (op : String) × (result : ReconciliationResult) × Asks p r
      reconciler op
    × ((reconciler task op db.outside).0 ≡ answered result)
    × (result.status ≡ not_found)

-- The call is not run: the decision is no retry, the rows that tools write stay, and the world
-- outside is as it was, or as the question to the provider left it.
abbrev pub NotRun : Platform → AgentTask → ToolCallRecord → Db → RecoveryDecision × Db → Type 0
NotRun p task r db result =
    Kept db.outside db.plan_steps result
    ⊎ ((reconciler : ToolReconciler) × (op : String) × Asks p r reconciler op
        × Kept (reconciler task op db.outside).1 db.plan_steps result)

module _ (p : Platform) (task : AgentTask) (r : ToolCallRecord) (db : Db) where
  queried-missing :
      (d : ToolDefinition) (reconciler : ToolReconciler) (operation : Option String)
      → get_tool p.registry r.tool_name ≡ some d
      → d.reconciler ≡ some reconciler
      → r.provider_operation_id ≡ operation
      → ProviderDenies p task r db
        ⊎ NotRun p task r db
            (query_provider p reconciler operation task r d CallStatus.outcome_unknown db)
  unfolding query_provider mark_for_review add_recovery_trace
  queried-missing d reconciler none found adapter recorded = inr (inl (refl, refl, refl))
  queried-missing d reconciler (some op) found adapter recorded = elim (Bool-cases (op == "")) [
    | inl blank ↦ rw blank (inr (inl (refl, refl, refl)))
    | inr usable ↦
        let (answer, world) = reconciler task op db.outside in
        let asks : Asks p r reconciler op = (d, found, adapter, recorded) in
        rw usable
          (elim (answered-missing p task r d CallStatus.outcome_unknown answer
            (record db { outside = world })) [
              | inl (result, said, missing) ↦ inl (reconciler, op, result, asks, said, missing)
              | inr kept ↦ inr (inr (reconciler, op, asks, kept))
            ])
  ]

  reconciled-missing :
      (found : Option ToolDefinition)
      → get_tool p.registry r.tool_name ≡ found
      → ProviderDenies p task r db
        ⊎ NotRun p task r db (reconcile_external_write p found task r CallStatus.outcome_unknown db)
  unfolding reconcile_external_write mark_for_review add_recovery_trace
  reconciled-missing none e = inr (inl (refl, refl, refl))
  reconciled-missing (some d) e = elim (Option-cases d.reconciler) [
    | inl absent ↦ rw absent (inr (inl (refl, refl, refl)))
    | inr (reconciler, adapter) ↦
        simp adapter (queried-missing d reconciler r.provider_operation_id e adapter refl)
  ]

  -- A call whose outcome is unknown is not run again, unless the registered adapter of its tool was
  -- asked for the operation that the call recorded and answered that the provider has no such
  -- operation: else the decision is no retry, the rows that tools write do not change, and only the
  -- question to the provider can have touched the world outside.
  pub recover-retries_missing :
      r.status ≡ CallStatus.outcome_unknown
      → ProviderDenies p task r db ⊎ NotRun p task r db (recover_tool_call p task r db)
  unfolding recover_tool_call recover_by_status
  recover-retries_missing e = simp e (reconciled-missing (get_tool p.registry r.tool_name) refl)
