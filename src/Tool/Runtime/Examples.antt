-- ===== src/Tool/Runtime/Examples.antt =====
-- A repeated key, an unlisted tool, and a write that nobody approved.
use careerops_agent.Shared.{refl, none, some, [], ◌∷◌}
use careerops_agent.Tool.Rows.{null, CallStatus, succeeded, awaiting_approval, ToolCallRecord, Db}
use careerops_agent.Tool.Registry.{get_tool}
use careerops_agent.Tool.Authorization.{get_or_create_task_policy}
use careerops_agent.Tool.Keys.{IsKeyed}
use careerops_agent.Tool.Saved.{IsRecordedAs}
use careerops_agent.Tool.Runtime.{
  keyed, resolve_key, find_tool_call, proposed_record, run_tool_call,
}
use careerops_agent.Tool.Runtime.Replay.{Idle}
use careerops_agent.Tool.Runtime.Refusal.{RefusedAs, unlisted_call-denied, unapproved_write-waits}
use careerops_agent.Tool.Runtime.Unique.{run_tool_call-IsKeyed}
use careerops_agent.Tool.Samples.{host, note, apply, job_hunt, applying, consent, database}

abbrev applied : ToolCallRecord
applied = record applying { status = succeeded }

abbrev after_applied : Db
after_applied = database (applied ∷ []) []

abbrev no_calls : Db
no_calls = database [] []

unlisted_call-denied_example :
    RefusedAs CallStatus.denied
      (run_tool_call host (λ x. x) job_hunt "note" null (some "n") none none no_calls).0
    × IsRecordedAs 1 CallStatus.denied
        (run_tool_call host (λ x. x) job_hunt "note" null (some "n") none none no_calls).1
    × Idle no_calls
        (run_tool_call host (λ x. x) job_hunt "note" null (some "n") none none no_calls).1
unfolding find_tool_call resolve_key keyed get_or_create_task_policy get_tool proposed_record
unlisted_call-denied_example =
    unlisted_call-denied host (λ x. x) job_hunt "note" null (some "n") none none no_calls {d = note}
      refl refl refl refl

unapproved_write-waits_example :
    RefusedAs awaiting_approval
      (run_tool_call host (λ x. x) job_hunt "apply" null (some "k") none none no_calls).0
    × IsRecordedAs 1 awaiting_approval
        (run_tool_call host (λ x. x) job_hunt "apply" null (some "k") none none no_calls).1
    × Idle no_calls
        (run_tool_call host (λ x. x) job_hunt "apply" null (some "k") none none no_calls).1
unfolding find_tool_call resolve_key keyed get_or_create_task_policy get_tool proposed_record
unapproved_write-waits_example =
    unapproved_write-waits host (λ x. x) job_hunt "apply" null (some "k") none none no_calls
      {d = apply} refl refl refl refl refl tt

run_tool_call-IsKeyed_example :
    IsKeyed
      (run_tool_call host
        (λ x. x)
        job_hunt
        "note"
        null
        (some "n")
        none
        none
        (database (applying ∷ []) (consent ∷ []))).1
run_tool_call-IsKeyed_example =
    run_tool_call-IsKeyed host (λ x. x) job_hunt "note" null (some "n") none none
      (database (applying ∷ []) (consent ∷ [])) (λ x u. u) ((refl, tt), (tt, tt))
