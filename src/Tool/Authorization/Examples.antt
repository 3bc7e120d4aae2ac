-- ===== src/Tool/Authorization/Examples.antt =====
-- A consented write is allowed, and one without consent is not.
use careerops_agent.Shared.{
  ◌+◌, ◌≡◌, refl, true, false, any, All, is_none, ◌==◌, Eq_text, some, [], ◌∷◌,
}
use careerops_agent.Tool.Rows.{ToolApproval, TaskPolicy, Db}
use careerops_agent.Tool.Registry.{get_tool}
use careerops_agent.Tool.Approval.{consume_matching_tool_approval}
use careerops_agent.Tool.Approval.Consumed.{IsConsumed}
use careerops_agent.Tool.Authorization.{
  get_or_create_task_policy, update_task_policy, authorize_tool_call,
}
use careerops_agent.Tool.Authorization.Decisions.{authorize_sound}
use careerops_agent.Tool.Authorization.Policies.{NoRepeat, update_task_policy_sound}
use careerops_agent.Tool.Samples.{tools, apply, job_hunt, applying, consent, open_policy, database}

abbrev consented : Db
consented = database (applying ∷ []) (consent ∷ [])

abbrev unconsented : Db
unconsented = database (applying ∷ []) []

authorize_sound_example :
    (any (λ n. n == "apply") open_policy.allowed_tools ≡ true)
    × (true ≡ true
        → (a : ToolApproval) × ((consume_matching_tool_approval applying
              (get_or_create_task_policy tools job_hunt consented).1).0
            ≡ some a)
          × IsConsumed applying 20
              (consent ∷ [])
              (authorize_tool_call tools job_hunt applying apply true consented).1.approvals
              a
          × ((authorize_tool_call tools job_hunt applying apply true consented).0.approval_id
              ≡ some a.id)
          × ((authorize_tool_call tools job_hunt applying apply true consented).0.actor_id
              ≡ some a.actor_id))
unfolding authorize_tool_call get_or_create_task_policy consume_matching_tool_approval
authorize_sound_example = authorize_sound tools job_hunt applying apply true consented refl

abbrev narrowed : TaskPolicy
narrowed = record open_policy { version = 4; allowed_tools = "look" ∷ [] }

update_task_policy_sound_example :
    All (λ n. is_none (get_tool tools n) ≡ false) narrowed.allowed_tools
    × NoRepeat narrowed.allowed_tools
    × (narrowed.version ≡ (get_or_create_task_policy tools job_hunt unconsented).0.version + 1)
unfolding update_task_policy
update_task_policy_sound_example =
    update_task_policy_sound tools job_hunt ("look" ∷ "look" ∷ []) unconsented {policy = narrowed}
      refl
