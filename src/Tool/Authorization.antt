-- ===== src/Tool/Authorization.antt =====
-- app/services/authorization.py: task policies and the decision on one tool call.
pub mod Examples
pub mod Decisions
pub mod Policies
pub mod Keeps
use careerops_agent.Shared.{
  ℕ, suc, ◌+◌, String, Bool, true, not, ◌&&◌, Option, none, some, List, [], ◌∷◌, ◌++◌, length,
  first, keep, any, map, update_where, is_none, if◌then◌else◌, ◌==◌, Eq_nat, Eq_text,
}
use careerops_agent.Shared.Text.{strip}
use careerops_agent.Tool.Rows.{
  Permission, Decision, allowed, requires_approval, Message, not_allowed, one_time_approval,
  approval_required, policy_allows, AgentTask, ToolCallRecord, TaskPolicy, ToolAuthorization,
  ToolApproval, Db,
}
use careerops_agent.Tool.Tests.{is_external_write, permission_eq}
use careerops_agent.Tool.Registry.{ToolDefinition, Registry, get_tool}
use careerops_agent.Tool.Approval.{consume_matching_tool_approval}

unfoldable pub default_allowed_tools : Registry → List String
default_allowed_tools registry =
    map (λ d. d.name) (keep (λ d. permission_eq d.permission Permission.read) registry)

created_policy : Registry → AgentTask → Option TaskPolicy → Db → TaskPolicy × Db
unfolding default_allowed_tools
created_policy registry task (some policy) db = (policy, db)
created_policy registry task none db =
    let policy : TaskPolicy = record {
      id = suc (length db.policies);
      task_id = task.id;
      version = 1;
      allowed_tools = default_allowed_tools registry;
      external_writes_require_approval = true;
    } in
    (policy, record db { policies = db.policies ++ policy ∷ [] })

unfoldable pub get_or_create_task_policy : Registry → AgentTask → Db → TaskPolicy × Db
unfolding created_policy
get_or_create_task_policy registry task db =
    created_policy registry task (first (λ p. p.task_id == task.id) db.policies) db

-- `dict.fromkeys`: the first occurrences, in order.
unfoldable pub distinct : (seen : List String) → List String → List String
distinct seen [] = []
distinct seen (x ∷ xs) =
    let rest = distinct seen xs in
    let fresh = distinct (x ∷ seen) xs in if any (λ y. y == x) seen then rest else x ∷ fresh

pub normalized_tools : List String → List String
unfolding distinct strip
normalized_tools names = distinct [] (keep (λ n. not (n == "")) (map strip names))

-- `none` is `InvalidTaskPolicyError`.
unfoldable pub update_task_policy : Registry → AgentTask → List String → Db → Option TaskPolicy × Db
unfolding normalized_tools get_tool get_or_create_task_policy
update_task_policy registry task names db =
    let tools = normalized_tools names in
    if any (λ n. is_none (get_tool registry n)) tools
    then (none, db)
    else let (policy, db') = get_or_create_task_policy registry task db in
      let updated = record policy { allowed_tools = tools; version = policy.version + 1 } in
      (
        some updated,
        record db' { policies = update_where (λ p. p.id == policy.id) (λ _. updated) db'.policies },
      )

-- What the ladder of `authorize_tool_call` decides.
pub record Verdict : Type 0 where
  pub decision : Decision
  pub reason : Message
  pub approval : Option ToolApproval

abbrev after_approval : ToolDefinition → Option ToolApproval → Verdict
after_approval d (some a) = record {
  decision = allowed;
  reason = one_time_approval a.id a.actor_id;
  approval = some a;
}
after_approval d none = record {
  decision = requires_approval;
  reason = approval_required d.name;
  approval = none;
}

unfoldable pub decide_call : TaskPolicy → ToolCallRecord → ToolDefinition → Bool → Db → Verdict × Db
decide_call policy r d require_approval db =
    if not (any (λ n. n == d.name) policy.allowed_tools)
    then (
      record {
        decision = Decision.denied;
        reason = not_allowed d.name policy.version;
        approval = none;
      },
      db,
    )
    else if is_external_write d.effect
        && policy.external_writes_require_approval
        && require_approval
    then (let (approval, db') = consume_matching_tool_approval r db in
        (after_approval d approval, db'))
    else (
      record { decision = allowed; reason = policy_allows policy.version d.name; approval = none },
      db,
    )

abbrev actor_of : Option ToolApproval → Option String
actor_of none = none
actor_of (some a) = some a.actor_id

abbrev approval_id_of : Option ToolApproval → Option ℕ
approval_id_of none = none
approval_id_of (some a) = some a.id

unfoldable pub authorize_tool_call :
    Registry → AgentTask → ToolCallRecord → ToolDefinition → Bool → Db → ToolAuthorization × Db
unfolding get_or_create_task_policy decide_call
authorize_tool_call registry task r d require_approval db =
    let (policy, db') = get_or_create_task_policy registry task db in
    let (verdict, db'') = decide_call policy r d require_approval db' in
    let authorization : ToolAuthorization = record {
      id = suc (length db''.authorizations);
      task_id = task.id;
      tool_call_id = r.id;
      policy_id = policy.id;
      policy_version = policy.version;
      tool_name = d.name;
      permission = d.permission;
      effect = d.effect;
      decision = verdict.decision;
      reason = verdict.reason;
      actor_id = actor_of verdict.approval;
      approval_id = approval_id_of verdict.approval;
      allowed_tools = policy.allowed_tools;
      external_writes_require_approval = policy.external_writes_require_approval;
      require_execution_approval = require_approval;
    } in
    (authorization, record db'' { authorizations = db''.authorizations ++ authorization ∷ [] })
