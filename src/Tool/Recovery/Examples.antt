-- ===== src/Tool/Recovery/Examples.antt =====
-- Calls that a stopped process left behind.
use careerops_agent.Shared.{◌≡◌, refl, false, [], ◌∷◌, inr, ◌⊎◌}
use careerops_agent.Tool.Rows.{proposed, CallStatus, ToolCallRecord, Db}
use careerops_agent.Tool.Saved.{IsRecordedAs}
use careerops_agent.Tool.Runtime.Replay.{Idle}
use careerops_agent.Tool.Recovery.{recover_tool_call}
use careerops_agent.Tool.Recovery.Marks.{marked_outcome_unknown}
use careerops_agent.Tool.Recovery.Safety.{
  ProviderDenies, NotRun, recover-external_unknown, recover-retries_missing,
}
use careerops_agent.Tool.Recovery.Settled.{is_in_flight, recover-settled}
use careerops_agent.Tool.Samples.{host, job_hunt, applying, consent, database}

abbrev left_running : Db
left_running = database (applying ∷ []) []

recover-external_unknown_example :
    let (decision, db) = recover_tool_call host job_hunt applying left_running in
    (decision.action ≡ marked_outcome_unknown)
    × (decision.status ≡ CallStatus.outcome_unknown)
    × IsRecordedAs applying.id CallStatus.outcome_unknown db
    × Idle left_running db
recover-external_unknown_example =
    recover-external_unknown host job_hunt applying left_running refl (inr refl) refl

abbrev unsure : ToolCallRecord
unsure = record applying { status = CallStatus.outcome_unknown }

abbrev consented : Db
consented = database (unsure ∷ []) (consent ∷ [])

recover-retries_missing_example :
    ProviderDenies host job_hunt unsure consented
    ⊎ NotRun host job_hunt unsure consented (recover_tool_call host job_hunt unsure consented)
recover-retries_missing_example = recover-retries_missing host job_hunt unsure consented refl

recover-settled_example :
    is_in_flight (recover_tool_call host job_hunt applying left_running).0.status ≡ false
recover-settled_example = recover-settled host job_hunt applying left_running

abbrev not_begun : ToolCallRecord
not_begun = record applying { status = proposed; attempt_count = 0 }

abbrev left_proposed : Db
left_proposed = database (not_begun ∷ []) []
