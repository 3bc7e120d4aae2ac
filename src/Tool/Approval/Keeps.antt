-- ===== src/Tool/Approval/Keeps.antt =====
-- What the use of an approval leaves alone.
use careerops_agent.Shared.{refl, ℕ, Option, none, some, first}
use careerops_agent.Tool.Rows.{ToolCallRecord, ToolApproval, Db}
use careerops_agent.Tool.Approval.{claim_found, consume_matching_tool_approval, matches}
use careerops_agent.Tool.Same.{SameCalls, SameCalls-refl}

claim_found-SameCalls :
    (r : ToolCallRecord) (now : ℕ) (o : Option ToolApproval) (db : Db)
    → SameCalls db (claim_found r now o db).1
unfolding claim_found
claim_found-SameCalls r now none db = SameCalls-refl db
claim_found-SameCalls r now (some a) db = record {
  outside = refl;
  plan_steps = refl;
  run_steps = refl;
  tool_calls = refl;
}

pub consume-SameCalls :
    (r : ToolCallRecord) (db : Db) → SameCalls db (consume_matching_tool_approval r db).1
unfolding consume_matching_tool_approval
consume-SameCalls r db =
    claim_found-SameCalls r db.outside.clock (first (matches r db.outside.clock) db.approvals) db
