-- ===== src/Tool/Authorization/Decisions.antt =====
-- What an allowed call has been checked for.
use careerops_agent.Shared.{
  ◌≡◌, Bool, true, ◌&&◌, none, some, any, Option-cases, ap, ◌⊎◌, Bool-cases, inl, inr, ◌==◌,
  Eq_text, Eq_nat,
}
use careerops_agent.Tool.Rows.{
  allowed, denied, requires_approval, ToolAuthorization, AgentTask, ToolCallRecord, ToolApproval,
  TaskPolicy, Db,
}
use careerops_agent.Tool.Tests.{is_external_write, is_allowed}
use careerops_agent.Tool.Registry.{ToolDefinition, Registry}
use careerops_agent.Tool.Approval.{consume_matching_tool_approval}
use careerops_agent.Tool.Approval.Consumed.{IsConsumed, consume_sound}
use careerops_agent.Tool.Authorization.{
  decide_call, approval_id_of, actor_of, get_or_create_task_policy, authorize_tool_call,
}

-- The calls for which a person has to approve.
abbrev pub needs_approval : TaskPolicy → ToolDefinition → Bool → Bool
needs_approval policy d require =
    is_external_write d.effect && policy.external_writes_require_approval && require

decide_sound :
    (policy : TaskPolicy) (r : ToolCallRecord) (d : ToolDefinition) (require : Bool) (db : Db)
    → is_allowed (decide_call policy r d require db).0.decision ≡ true
    → (any (λ n. n == d.name) policy.allowed_tools ≡ true)
      × (needs_approval policy d require ≡ true
          → (a : ToolApproval) × ((consume_matching_tool_approval r db).0 ≡ some a)
            × IsConsumed r db.outside.clock db.approvals
                (decide_call policy r d require db).1.approvals
                a
            × ((decide_call policy r d require db).0.approval ≡ some a))
unfolding decide_call
decide_sound policy r d require db h =
    elim (Bool-cases (any (λ n. n == d.name) policy.allowed_tools)) [
      | inr absent ↦ cc (rw absent at h)
      | inl listed ↦ elim (Bool-cases (needs_approval policy d require)) [
        | inr free ↦ (listed, λ needed. cc (free, needed))
        | inl needed ↦ elim (Option-cases (consume_matching_tool_approval r db).0) [
          | inl missing ↦ cc (rw (listed, needed, missing) at h)
          | inr (a, found) ↦ (
            listed,
            λ _. (
              a,
              found,
              rw (listed, needed) (consume_sound r db found),
              rw (listed, needed, found),
            ),
          )
        ]
      ]
    ]

decide-unapproved :
    (policy : TaskPolicy) (r : ToolCallRecord) (d : ToolDefinition) (require : Bool) (db : Db)
    → needs_approval policy d require ≡ true
    → (consume_matching_tool_approval r db).0 ≡ none
    → ((decide_call policy r d require db).0.decision ≡ denied)
      ⊎ ((decide_call policy r d require db).0.decision ≡ requires_approval)
unfolding decide_call
decide-unapproved policy r d require db needed missing =
    elim (Bool-cases (any (λ n. n == d.name) policy.allowed_tools)) [
      | inl listed ↦ inr (rw (listed, needed, missing))
      | inr absent ↦ inl (rw absent)
    ]

module _ (registry : Registry) (task : AgentTask) (r : ToolCallRecord) (d : ToolDefinition)
    (require : Bool) (db : Db) where
  abbrev policy_now : TaskPolicy
  policy_now = (get_or_create_task_policy registry task db).0

  abbrev decided_now : ToolAuthorization
  decided_now = (authorize_tool_call registry task r d require db).0

  -- A call is allowed only if the task's policy lists the tool; and if it is an external write that
  -- the policy wants approved and this check asks for the approval, then only by a matching live
  -- approval that this check consumed, which the table has as used from then on, and whose id and
  -- actor the authorization names.
  pub authorize_sound :
      decided_now.decision ≡ allowed
      → (any (λ n. n == d.name) policy_now.allowed_tools ≡ true)
        × (needs_approval policy_now d require ≡ true
            → (a : ToolApproval) × ((consume_matching_tool_approval r
                  (get_or_create_task_policy registry task db).1).0
                ≡ some a)
              × IsConsumed r
                  (get_or_create_task_policy registry task db).1.outside.clock
                  (get_or_create_task_policy registry task db).1.approvals
                  (authorize_tool_call registry task r d require db).1.approvals
                  a
              × (decided_now.approval_id ≡ some a.id)
              × (decided_now.actor_id ≡ some a.actor_id))
  unfolding authorize_tool_call
  authorize_sound h =
      let (listed, by) =
        decide_sound policy_now r d require (get_or_create_task_policy registry task db).1
          (ap is_allowed h) in
      (
        listed,
        λ needed.
            (let (a, found, used, kept) = by needed in
              (a, found, used, ap approval_id_of kept, ap actor_of kept)),
      )

  -- Without a matching approval an external write that needs one is not allowed: the policy either
  -- does not list the tool, or the decision is to ask a person.
  pub authorize-unapproved :
      needs_approval policy_now d require ≡ true
      → (consume_matching_tool_approval r (get_or_create_task_policy registry task db).1).0 ≡ none
      → (decided_now.decision ≡ denied) ⊎ (decided_now.decision ≡ requires_approval)
  unfolding authorize_tool_call
  authorize-unapproved =
      decide-unapproved policy_now r d require (get_or_create_task_policy registry task db).1
