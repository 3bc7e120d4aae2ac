-- ===== src/Tool/Runtime/Replay.antt =====
-- A call whose idempotency key was used before.
use careerops_agent.Shared.{◌+◌, ◌≡◌, refl, true, Option, none, some, Eq_text}
use careerops_agent.Tool.Rows.{ToolCallRecord, Db}
use careerops_agent.Tool.Execution.{Platform, RecordLinker}
use careerops_agent.Tool.Runtime.{ToolCallOutcome, outcome, link_record}

-- The outcome is the earlier record with one more replay counted, or an exception.
abbrev pub Replays : ToolCallRecord → ToolCallOutcome → Type 0
Replays existing (outcome r replayed) =
    (r ≡ record existing { replay_count = existing.replay_count + 1 }) × (replayed ≡ true)
Replays existing _ = Unit {0}

-- Nothing ran: the rows that tools write and the world outside are as before.
abbrev pub Idle : Db → Db → Type 0
Idle a b = (b.outside ≡ a.outside) × (b.plan_steps ≡ a.plan_steps)

pub link_record-Idle :
    (p : Platform) (linker : Option RecordLinker) (r : ToolCallRecord) (db : Db)
    → Idle db (link_record p linker r db)
unfolding link_record
link_record-Idle p none r db = (refl, refl)
link_record-Idle p (some linker) r db = (refl, refl)
