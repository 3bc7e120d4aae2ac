-- ===== src/Tool/Approval/Examples.antt =====
-- Two workers meet at one approval.
use careerops_agent.Shared.{◌≤◌, ◌≡◌, refl, List, [], ◌∷◌}
use careerops_agent.Tool.Rows.{ToolApproval}
use careerops_agent.Tool.Approval.{consumed, claim, claim_found, consume_matching_tool_approval}
use careerops_agent.Tool.Approval.SingleUse.{Attempt, wins, wins-le_one}
use careerops_agent.Tool.Approval.Consumed.{IsConsumed, consume_sound}
use careerops_agent.Tool.Samples.{applying, consent, database}

abbrev two_workers : List Attempt
two_workers =
    record { approval = 1; call = applying; now = 20 }
    ∷ record { approval = 1; call = applying; now = 21 }
    ∷ []

wins-le_one_example : wins 1 two_workers (consent ∷ []) ≤ 1
wins-le_one_example = wins-le_one 1 two_workers (consent ∷ []) (tt, tt)

one_wins : wins 1 two_workers (consent ∷ []) ≡ 1
unfolding wins claim
one_wins = refl

abbrev used : ToolApproval
used = consumed 20 consent

consume_sound_example :
    IsConsumed applying 20
      (consent ∷ [])
      (consume_matching_tool_approval applying
        (database (applying ∷ []) (consent ∷ []))).1.approvals
      used
unfolding consume_matching_tool_approval claim_found claim
consume_sound_example =
    consume_sound applying (database (applying ∷ []) (consent ∷ [])) {a = used} refl
