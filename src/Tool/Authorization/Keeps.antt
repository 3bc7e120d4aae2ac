-- ===== src/Tool/Authorization/Keeps.antt =====
-- What an authorization leaves alone.
use careerops_agent.Shared.{
  ◌≡◌, refl, Bool, ◌&&◌, Option, none, some, first, any, Bool-cases, inl, inr, ◌==◌, Eq_nat,
  Eq_text,
}
use careerops_agent.Tool.Rows.{AgentTask, TaskPolicy, ToolCallRecord, Db}
use careerops_agent.Tool.Tests.{is_external_write}
use careerops_agent.Tool.Registry.{ToolDefinition, Registry}
use careerops_agent.Tool.Approval.Keeps.{consume-SameCalls}
use careerops_agent.Tool.Authorization.{
  created_policy, get_or_create_task_policy, decide_call, authorize_tool_call,
}
use careerops_agent.Tool.Same.{SameCalls, SameCalls-refl, SameCalls-trans}

created-SameCalls :
    (registry : Registry) (task : AgentTask) (o : Option TaskPolicy) (db : Db)
    → SameCalls db (created_policy registry task o db).1
unfolding created_policy
created-SameCalls registry task none db = record {
  outside = refl;
  plan_steps = refl;
  run_steps = refl;
  tool_calls = refl;
}
created-SameCalls registry task (some policy) db = SameCalls-refl db

decide-SameCalls :
    (policy : TaskPolicy) (r : ToolCallRecord) (d : ToolDefinition) (require : Bool) (db : Db)
    → SameCalls db (decide_call policy r d require db).1
unfolding decide_call
decide-SameCalls policy r d require db =
    elim (Bool-cases (any (λ n. n == d.name) policy.allowed_tools)) [
      | inr absent ↦ rw absent (SameCalls-refl db)
      | inl listed ↦
          elim (Bool-cases
            (is_external_write d.effect && policy.external_writes_require_approval && require)) [
              | inl needed ↦ rw (listed, needed) (consume-SameCalls r db)
              | inr free ↦ rw (listed, free) (SameCalls-refl db)
            ]
    ]

-- An authorization touches neither the calls, nor the rows that tools write, nor the world outside.
pub authorize-SameCalls :
    (registry : Registry) (task : AgentTask) (r : ToolCallRecord) (d : ToolDefinition)
    (require : Bool) (db : Db)
    → SameCalls db (authorize_tool_call registry task r d require db).1
unfolding authorize_tool_call
authorize-SameCalls registry task r d require db =
    let (policy, db') = get_or_create_task_policy registry task db in
    let made = created-SameCalls registry task (first (λ p. p.task_id == task.id) db.policies) db in
    let decided = decide-SameCalls policy r d require db' in
    let both = SameCalls-trans made decided in
    record {
      outside = both.outside;
      plan_steps = both.plan_steps;
      run_steps = both.run_steps;
      tool_calls = both.tool_calls;
    }

created-approvals :
    (registry : Registry) (task : AgentTask) (o : Option TaskPolicy) (db : Db)
    → (created_policy registry task o db).1.approvals ≡ db.approvals
unfolding created_policy
created-approvals registry task none db = refl
created-approvals registry task (some policy) db = refl

pub get_or_create-approvals :
    (registry : Registry) (task : AgentTask) (db : Db)
    → (get_or_create_task_policy registry task db).1.approvals ≡ db.approvals
unfolding get_or_create_task_policy
get_or_create-approvals registry task db =
    created-approvals registry task (first (λ p. p.task_id == task.id) db.policies) db

created-policies :
    (registry : Registry) (task : AgentTask) (o : Option TaskPolicy) (a b : Db)
    → a.policies ≡ b.policies
    → (created_policy registry task o a).0 ≡ (created_policy registry task o b).0
unfolding created_policy
created-policies registry task none a b h = rw h
created-policies registry task (some policy) a b h = refl

-- The policy depends on the table of policies alone.
pub get_or_create-policies :
    (registry : Registry) (task : AgentTask) (a b : Db)
    → a.policies ≡ b.policies
    → (get_or_create_task_policy registry task a).0 ≡ (get_or_create_task_policy registry task b).0
unfolding get_or_create_task_policy
get_or_create-policies registry task a b h =
    simp h (created-policies registry task (first (λ p. p.task_id == task.id) b.policies) a b h)
