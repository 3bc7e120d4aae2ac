-- ===== src/Memory/Selection/Examples.antt =====
-- Two memories and one piece of evidence, for a budget that takes two of them.
use mathlib.Core.List.{Perm}
use careerops_agent.Shared.{◌++◌, ℕ, ◌≤◌, ◌≡◌, String, some, [], ◌∷◌, length}
use careerops_agent.Tool.Rows.{Json, null, num, str}
use careerops_agent.Context.Json.{array}
use careerops_agent.Context.Budget.{estimate_tokens}
use careerops_agent.Memory.Selection.{RankedDocument, Selection, select_under_budget}
use careerops_agent.Memory.Selection.Bounded.{select_under_budget-IsBounded}

abbrev document : String → RankedDocument
document key = record {
  key = key;
  payload = str key;
  lexical_score = num 1;
  semantic_score = null;
  fusion_score = num 1;
}

-- Any value costs five tokens.
abbrev fives : Json → ℕ
fives v = 5

select_under_budget-IsBounded_example :
    (v : Selection) × (select_under_budget fives 12 1 4
        (document "m1" ∷ document "m2" ∷ [])
        (document "j" ∷ [])
      ≡ some v)
    × (estimate_tokens fives (array v.token_payloads) ≤ 12)
    × Perm v.token_payloads (v.selected ++ v.knowledge)
    × (length v.selected ≤ 1)
    × (length v.knowledge ≤ 4)
select_under_budget-IsBounded_example =
    select_under_budget-IsBounded fives 12 1 4 (document "m1" ∷ document "m2" ∷ [])
      (document "j" ∷ [])
