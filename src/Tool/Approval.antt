-- ===== src/Tool/Approval.antt =====
-- app/services/tool_approval.py: one-time approvals of external writes.
pub mod Examples
pub mod SingleUse
pub mod Consumed
pub mod Keeps
use careerops_agent.Shared.{
  ℕ, suc, ◌+◌, String, Bool, true, false, not, ◌&&◌, Option, none, some, List, [], ◌∷◌, ◌++◌,
  length, first, last, keep, update_where, row_count, is_none, ltb, if◌then◌else◌, ◌==◌, Eq_nat,
  Eq_text, Eq_option,
}
use careerops_agent.Tool.Rows.{
  CallStatus, awaiting_approval, AgentTask, ToolCallRecord, ToolAuthorization, ToolApproval,
  approval_granted, approval_granted_by, Db,
}
use careerops_agent.Tool.Tests.{
  is_external_write, is_requires_approval, is_execution_pending, save, add_trace, next_trace_id,
}
use careerops_agent.Tool.Registry.{ToolDefinition, Registry, get_tool}

-- `ToolApprovalError`, by its messages.
pub data ToolApprovalError : Type 0 where
  not_external_write wrong_task not_waiting not_requested already_active : ToolApprovalError

pub data Approved : Type 0 where
  approved : ToolApproval → Approved
  refused : ToolApprovalError → Approved

-- `record.authorizations[-1]`
abbrev pub latest_authorization : ToolCallRecord → Db → Option ToolAuthorization
latest_authorization r db = last (keep (λ a. a.tool_call_id == r.id) db.authorizations)

abbrev asked_for_approval : Option ToolAuthorization → Bool
asked_for_approval none = false
asked_for_approval (some a) = is_requires_approval a.decision

abbrev approvable : Option ToolDefinition → Bool
approvable none = false
approvable (some d) = is_external_write d.effect

-- The rest of `create_tool_approval`, once an expired approval has left the slot.
grant : AgentTask → ToolCallRecord → (actor : String) → (expires_in now : ℕ) → Db → Approved × Db
grant task r actor expires_in now db =
    let approval : ToolApproval = record {
      id = suc (length db.approvals);
      task_id = task.id;
      tool_call_id = r.id;
      active_slot = some r.id;
      actor_id = actor;
      tool_name = r.tool_name;
      idempotency_key = r.idempotency_key;
      request_fingerprint = r.request_fingerprint;
      expires_at = now + expires_in;
      consumed_at = none;
      revoked_at = none;
    } in
    (
      approved approval,
      add_trace
          (record {
            id = next_trace_id db;
            task_id = task.id;
            plan_step_id = r.plan_step_id;
            status = approval_granted;
            output_summary = approval_granted_by actor (now + expires_in);
            tool_call_id = r.id;
            authorization_id = none;
            approval_id = some approval.id;
            fixture_id = none;
            previous_status = none;
          })
          (save (record r { status = awaiting_approval })
            (record db { approvals = db.approvals ++ approval ∷ [] })),
    )

-- `active_slot` is unique, so at most one row leaves the slot.
abbrev vacate : ℕ → ℕ → Db → Db
vacate slot now db = record db {
  approvals =
      update_where (λ a. a.active_slot == some slot)
        (λ a. record a { active_slot = none; revoked_at = some now }) db.approvals;
}

replace_active :
    Option ToolApproval
    → AgentTask
    → ToolCallRecord
    → (actor : String) → (expires_in now : ℕ) → Db
    → Approved × Db
unfolding grant
replace_active none task r actor expires_in now db = grant task r actor expires_in now db
replace_active (some active) task r actor expires_in now db =
    if ltb now active.expires_at
    then (refused already_active, db)
    else grant task r actor expires_in now (vacate r.id now db)

unfoldable pub create_tool_approval :
    Registry → AgentTask → ToolCallRecord → (actor : String) → (expires_in : ℕ) → Db → Approved × Db
unfolding replace_active get_tool
create_tool_approval registry task r actor expires_in db =
    if not (approvable (get_tool registry r.tool_name))
    then (refused not_external_write, db)
    else if not (r.task_id == task.id)
    then (refused wrong_task, db)
    else if not (is_execution_pending r.status)
    then (refused not_waiting, db)
    else if not (asked_for_approval (latest_authorization r db))
    then (refused not_requested, db)
    else replace_active (first (λ a. a.active_slot == some r.id) db.approvals) task r actor
        expires_in db.outside.clock db

-- The conditions of the `select`.
abbrev pub matches : ToolCallRecord → ℕ → ToolApproval → Bool
matches r now a =
    a.active_slot == some r.id
    && a.task_id == r.task_id
    && a.tool_call_id == r.id
    && a.tool_name == r.tool_name
    && a.idempotency_key == r.idempotency_key
    && a.request_fingerprint == r.request_fingerprint
    && is_none a.consumed_at
    && is_none a.revoked_at
    && ltb now a.expires_at

-- The conditions of the `update`.
abbrev pub claimable : ℕ → ToolCallRecord → ℕ → ToolApproval → Bool
claimable i r now a =
    a.id == i
    && a.active_slot == some r.id
    && is_none a.consumed_at
    && is_none a.revoked_at
    && ltb now a.expires_at

abbrev pub consumed : ℕ → ToolApproval → ToolApproval
consumed now a = record a { active_slot = none; consumed_at = some now }

-- The conditional `update`: whether it hit exactly one row, and the table after it.
pub claim : ℕ → ToolCallRecord → ℕ → List ToolApproval → Bool × List ToolApproval
claim i r now rows =
    (row_count (claimable i r now) rows == 1, update_where (claimable i r now) (consumed now) rows)

claim_found : ToolCallRecord → ℕ → Option ToolApproval → Db → Option ToolApproval × Db
unfolding claim
claim_found r now none db = (none, db)
claim_found r now (some a) db =
    let (hit, rows) = claim a.id r now db.approvals in
    (if hit then some (consumed now a) else none, record db { approvals = rows })

unfoldable pub consume_matching_tool_approval : ToolCallRecord → Db → Option ToolApproval × Db
unfolding claim_found
consume_matching_tool_approval r db =
    let now = db.outside.clock in claim_found r now (first (matches r now) db.approvals) db

pub list_tool_approvals : Db → ℕ → List ToolApproval
list_tool_approvals db call = keep (λ a. a.tool_call_id == call) db.approvals
