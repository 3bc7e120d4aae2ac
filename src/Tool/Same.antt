-- ===== src/Tool/Same.antt =====
-- Two states with the same calls, the same rows that tools write, and the same world outside.
use careerops_agent.Shared.{◌≡◌, refl, ◌∙◌}
use careerops_agent.Tool.Rows.{Db}

pub record SameCalls (a b : Db) : Type 0 where
  pub outside : b.outside ≡ a.outside
  pub plan_steps : b.plan_steps ≡ a.plan_steps
  pub run_steps : b.run_steps ≡ a.run_steps
  pub tool_calls : b.tool_calls ≡ a.tool_calls

pub SameCalls-refl : (a : Db) → SameCalls a a
SameCalls-refl a = record { outside = refl; plan_steps = refl; run_steps = refl; tool_calls = refl }

pub SameCalls-trans : {a b c : Db} → SameCalls a b → SameCalls b c → SameCalls a c
SameCalls-trans h k = record {
  outside = k.outside ∙ h.outside;
  plan_steps = k.plan_steps ∙ h.plan_steps;
  run_steps = k.run_steps ∙ h.run_steps;
  tool_calls = k.tool_calls ∙ h.tool_calls;
}
