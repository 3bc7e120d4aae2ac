-- ===== src/Tool/Runtime/Refusal.antt =====
-- A new call that the policy does not allow is recorded and not run.
use careerops_agent.Shared.{
  ℕ, String, ◌≡◌, refl, ◌∙◌, true, false, Option, none, some, List, [], ◌∷◌, ◌++◌, All, any, first,
  ◌==◌, Eq_text, Eq_nat, Eq_option,
}
use careerops_agent.Tool.Rows.{
  Json, AgentTask, ToolCallRecord, ToolAuthorization, ToolApproval, TaskPolicy, denied,
  requires_approval, CallStatus, awaiting_approval, Db,
}
use careerops_agent.Tool.Saved.{IsStored, IsRecordedAs, update-recorded, append-IsStored}
use careerops_agent.Tool.Registry.{ToolDefinition, get_tool}
use careerops_agent.Tool.Approval.{matches, consume_matching_tool_approval}
use careerops_agent.Tool.Authorization.{get_or_create_task_policy, authorize_tool_call}
use careerops_agent.Tool.Authorization.Keeps.{
  authorize-SameCalls, get_or_create-policies, get_or_create-approvals,
}
use careerops_agent.Tool.Authorization.Decisions.{needs_approval}
use careerops_agent.Tool.Execution.{Platform, RecordLinker, trace_and_save}
use careerops_agent.Tool.Runtime.{
  ToolCallOutcome, outcome, request_fingerprint, resolve_key, find_tool_call, link_record,
  refused_record, after_authorization, proposed_record, insert_or_replay, lookup_or_insert,
  run_defined, run_tool_call,
}
use careerops_agent.Tool.Runtime.Replay.{Idle, link_record-Idle}

-- The call was recorded with this status, and no attempt was made.
abbrev pub RefusedAs : CallStatus → ToolCallOutcome → Type 0
RefusedAs status (outcome r replayed) =
    (r.status ≡ status) × (r.attempt_count ≡ 0) × (replayed ≡ false)
RefusedAs status _ = ⊥

module _ (p : Platform) (task : AgentTask) (d : ToolDefinition) (r : ToolCallRecord)
    (fresh : r.attempt_count ≡ 0) (a : ToolAuthorization) (db : Db)
    (stored : IsStored r.id db) where
  refused_denied :
      a.decision ≡ denied
      → RefusedAs CallStatus.denied (after_authorization p task r d a db).0
        × IsRecordedAs r.id CallStatus.denied (after_authorization p task r d a db).1
        × Idle db (after_authorization p task r d a db).1
  unfolding after_authorization trace_and_save refused_record
  refused_denied e =
      simp e ((refl, fresh, refl), update-recorded r _ refl db.tool_calls stored, (refl, refl))

  refused_waiting :
      a.decision ≡ requires_approval
      → RefusedAs awaiting_approval (after_authorization p task r d a db).0
        × IsRecordedAs r.id awaiting_approval (after_authorization p task r d a db).1
        × Idle db (after_authorization p task r d a db).1
  unfolding after_authorization trace_and_save refused_record
  refused_waiting e =
      simp e ((refl, fresh, refl), update-recorded r _ refl db.tool_calls stored, (refl, refl))

-- No approval holds the slot of the call `i`.
abbrev pub NoApproval : ℕ → List ToolApproval → Type 0
NoApproval i = All (λ a. (a.active_slot == some i) ≡ false)

no-match :
    (r : ToolCallRecord) (now : ℕ) (rows : List ToolApproval)
    → NoApproval r.id rows
    → first (matches r now) rows ≡ none
no-match r now [] h = refl
no-match r now (a ∷ rows) h = rw h.0 (no-match r now rows h.1)

no-consume :
    (r : ToolCallRecord) (db : Db)
    → NoApproval r.id db.approvals
    → (consume_matching_tool_approval r db).0 ≡ none
unfolding consume_matching_tool_approval
no-consume r db h = rw (no-match r db.outside.clock db.approvals h)

module _ (p : Platform) (task : AgentTask) (d : ToolDefinition) (r : ToolCallRecord) (db : Db) where
  abbrev policy_for : TaskPolicy
  policy_for = (get_or_create_task_policy p.registry task db).0

  decision_unlisted :
      any (λ n. n == d.name) policy_for.allowed_tools ≡ false
      → (authorize_tool_call p.registry task r d true db).0.decision ≡ denied
  unfolding authorize_tool_call
  decision_unlisted absent = rw absent

  decision_unapproved :
      any (λ n. n == d.name) policy_for.allowed_tools ≡ true
      → needs_approval policy_for d true ≡ true
      → NoApproval r.id (get_or_create_task_policy p.registry task db).1.approvals
      → (authorize_tool_call p.registry task r d true db).0.decision ≡ requires_approval
  unfolding authorize_tool_call
  decision_unapproved listed needed none_given =
      rw (listed, needed, no-consume r (get_or_create_task_policy p.registry task db).1 none_given)

link-policies :
    (p : Platform) (linker : Option RecordLinker) (r : ToolCallRecord) (db : Db)
    → ((link_record p linker r db).policies ≡ db.policies)
      × ((link_record p linker r db).approvals ≡ db.approvals)
unfolding link_record
link-policies p none r db = (refl, refl)
link-policies p (some linker) r db = (refl, refl)

link-tool_calls :
    (p : Platform) (linker : Option RecordLinker) (r : ToolCallRecord) (db : Db)
    → (link_record p linker r db).tool_calls ≡ db.tool_calls
unfolding link_record
link-tool_calls p none r db = refl
link-tool_calls p (some linker) r db = refl

module _ (p : Platform) (others : Db → Db) (task : AgentTask) (name : String) (arguments : Json)
    (requested : Option String) (step : Option ℕ) (linker : Option RecordLinker) (db : Db)
    {d : ToolDefinition} (found : get_tool p.registry name ≡ some d)
    (unused : find_tool_call p
        (resolve_key p d.idempotency_mode requested db).1
        task.id
        (resolve_key p d.idempotency_mode requested db).0
      ≡ none)
    (still_unused : find_tool_call p
        (others (resolve_key p d.idempotency_mode requested db).1)
        task.id
        (resolve_key p d.idempotency_mode requested db).0
      ≡ none) where
  -- The state at the flush of the new row, and the row.
  abbrev flushed : Db
  flushed = others (resolve_key p d.idempotency_mode requested db).1

  abbrev new_record : ToolCallRecord
  new_record =
      proposed_record p task d arguments (resolve_key p d.idempotency_mode requested db).0
        (request_fingerprint p name arguments step) step flushed

  abbrev linked : Db
  linked =
      link_record p linker new_record
        (record flushed { tool_calls = flushed.tool_calls ++ new_record ∷ [] })

  abbrev ran : ToolCallOutcome × Db
  ran = run_tool_call p others task name arguments requested step linker db

  run-new :
      ran
      ≡ after_authorization p task new_record d
          (authorize_tool_call p.registry task new_record d true linked).0
          (authorize_tool_call p.registry task new_record d true linked).1
  unfolding run_tool_call run_defined lookup_or_insert insert_or_replay
  run-new = rw (found, unused, still_unused)

  Idle-before : Idle flushed (authorize_tool_call p.registry task new_record d true linked).1
  Idle-before =
      let (world, rows) =
        link_record-Idle p linker new_record
          (record flushed { tool_calls = flushed.tool_calls ++ new_record ∷ [] }) in
      let same = authorize-SameCalls p.registry task new_record d true linked in
      (same.outside ∙ world, same.plan_steps ∙ rows)

  new_record-IsStored :
      IsStored new_record.id (authorize_tool_call p.registry task new_record d true linked).1
  new_record-IsStored =
      rw
        (
          (authorize-SameCalls p.registry task new_record d true linked).tool_calls,
          link-tool_calls p linker new_record
              (record flushed { tool_calls = flushed.tool_calls ++ new_record ∷ [] }),
        )
        (append-IsStored flushed.tool_calls new_record)

  policy_linked : policy_for p task d new_record linked ≡ policy_for p task d new_record flushed
  policy_linked =
      get_or_create-policies p.registry task linked flushed (link-policies p linker new_record _).0

  -- A call with a new key of a tool that the task's policy does not list is returned and stored as
  -- denied, with no attempt made; no row that tools write changes, nor the world outside.
  pub unlisted_call-denied :
      any (λ n. n == d.name) (get_or_create_task_policy p.registry task flushed).0.allowed_tools
        ≡ false
      → RefusedAs CallStatus.denied ran.0
        × IsRecordedAs new_record.id CallStatus.denied ran.1
        × Idle flushed ran.1
  unfolding proposed_record
  unlisted_call-denied absent =
      let a = authorize_tool_call p.registry task new_record d true linked in
      let (as_denied, recorded, (world, rows)) =
        refused_denied p task d new_record refl a.0 a.1 new_record-IsStored
          (decision_unlisted p task d new_record linked (rw policy_linked absent)) in
      rw run-new (as_denied, recorded, (world ∙ Idle-before.0, rows ∙ Idle-before.1))

  -- A call with a new key of a listed external-write tool whose policy wants approvals is returned
  -- and stored as waiting for approval, with no attempt made, while no approval names its slot; no
  -- row that tools write changes, nor the world outside.
  pub unapproved_write-waits :
      any (λ n. n == d.name) (get_or_create_task_policy p.registry task flushed).0.allowed_tools
        ≡ true
      → needs_approval (get_or_create_task_policy p.registry task flushed).0 d true ≡ true
      → NoApproval new_record.id flushed.approvals
      → RefusedAs awaiting_approval ran.0
        × IsRecordedAs new_record.id awaiting_approval ran.1
        × Idle flushed ran.1
  unfolding proposed_record
  unapproved_write-waits listed needed none_given =
      let a = authorize_tool_call p.registry task new_record d true linked in
      let approvals =
        get_or_create-approvals p.registry task linked ∙ (link-policies p linker new_record _).1 in
      let (waiting, recorded, (world, rows)) =
        refused_waiting p task d new_record refl a.0 a.1 new_record-IsStored (
          decision_unapproved p task d new_record linked (rw policy_linked listed)
            (rw policy_linked needed) (rw approvals none_given)) in
      rw run-new (waiting, recorded, (world ∙ Idle-before.0, rows ∙ Idle-before.1))
