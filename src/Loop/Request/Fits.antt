-- ===== src/Loop/Request/Fits.antt =====
-- app/services/agent_loop.py: a request fits the model.
use careerops_agent.Shared.{
  ℕ, ◌+◌, ◌-◌, ◌≤◌, ◌≡◌, refl, ap, ◌∙◌, true, false, ◌||◌, Option, none, some, List, [], arith,
  Bool-cases, inl, inr, ltb, leb, leb→le, some_inj,
}
use careerops_agent.Tool.Rows.{Json}
use careerops_agent.Context.Json.{array}
use careerops_agent.Context.Budget.{
  ContextTokenBudget, sections_cost, estimate_tokens, measure_context_budget,
}
use careerops_agent.Context.Task.{MemoryContext}
use careerops_agent.Context.Agent.Sound.{Sound, compact_agent_context-Sound}
use careerops_agent.Run.Rows.{AgentModelRequest}
use careerops_agent.Loop.Model.{ok}
use careerops_agent.Loop.Store.{Engine}
use careerops_agent.Loop.Request.{
  Situation, measured_sections, memory_dict, budget_or_error, requested, fit_observations,
}

le→leb : (a b : ℕ) → a ≤ b → leb a b ≡ true
le→leb a b h = ground arith

room :
    (model reserved total : ℕ)
    → (ltb reserved 1 || leb model reserved) ≡ false
    → total ≤ model - reserved
    → total + reserved ≤ model
room model reserved total h k = ground arith

sections_fit :
    (prompt memory tools observations input : ℕ)
    → prompt + memory + tools + 0 ≤ input
    → observations ≤ input - (prompt + memory + tools + 0)
    → prompt + memory + tools + observations ≤ input
sections_fit prompt memory tools observations input h k = omega (arith, h, k)

left_over :
    (o : ℕ) {input estimated input' estimated' : ℕ}
    → o ≤ input' - estimated'
    → input ≡ input'
    → estimated ≡ estimated'
    → o ≤ input - estimated
left_over o h e e' = omega (arith, h, e, e')

-- A measure within the budget stays so with observations that fit what it leaves.
remeasured :
    (count : Json → ℕ) (model reserved : ℕ) (prompt memory tools observations : Json)
    (raw : Option Json) (fixed : ContextTokenBudget)
    → measure_context_budget count model reserved prompt memory tools (array []) none ≡ some fixed
    → fixed.within_budget ≡ true
    → estimate_tokens count observations ≤ fixed.input_token_budget - fixed.estimated_input_tokens
    → (b : ContextTokenBudget) × (measure_context_budget count model reserved prompt memory tools
          observations raw
        ≡ some b)
      × (b.within_budget ≡ true)
      × (b.estimated_input_tokens + reserved ≤ model)
      × (sections_cost count prompt memory tools observations + reserved ≤ model)
      × (b.observation_tokens ≡ estimate_tokens count observations)
unfolding measure_context_budget
remeasured count model reserved prompt memory tools observations raw fixed h within fits =
    elim (Bool-cases (ltb model 1)) [
      | inl t ↦ cc (t, h)
      | inr f ↦ elim (Bool-cases (ltb reserved 1 || leb model reserved)) [
        | inl t ↦ cc (f, t, h)
        | inr g ↦
            (let same = some_inj (rw (f, g) at h) in
              let total =
                sections_fit (estimate_tokens count prompt) (estimate_tokens count memory)
                  (estimate_tokens count tools) (estimate_tokens count observations)
                  (model - reserved) (leb→le _ _ (ap (λ z. z.within_budget) same ∙ within))
                  (left_over _ fits (ap (λ z. z.input_token_budget) same)
                    (ap (λ z. z.estimated_input_tokens) same)) in
              rw (f, g)
                (
                  _,
                  refl,
                  le→leb _ _ total,
                  room model reserved _ g total,
                  room model reserved _ g total,
                  refl,
                ))
      ]
    ]

module _ (e : Engine) (v : Situation) (memory : MemoryContext) where
  -- What `measured_sections` says of a budget, in terms of `measure_context_budget`.
  abbrev Measures : List Json → Option Json → ContextTokenBudget → Type 0
  Measures observations raw b =
      measure_context_budget e.library.count e.model_context_tokens e.reserved_output_tokens
        v.prompt (memory_dict memory) (array v.tools) (array observations) raw
      ≡ some b

  measured_ok :
      (found : Option ContextTokenBudget) (b : ContextTokenBudget)
      → budget_or_error e.model_context_tokens found ≡ ok b
      → found ≡ some b
  measured_ok none b h = ground arith
  measured_ok (some c) b h = cc

  -- If prompt, tools and memories are within the budget, a request is always built, however many
  -- observations there are: with these tools and memories. What prompt, memories, tools and the
  -- observations that it keeps cost together, each by its own estimate, fits the model's context
  -- with the tokens reserved for the output.
  pub fit_observations_fits :
      (fixed : ContextTokenBudget)
      → measured_sections e v memory [] none ≡ ok fixed
      → fixed.within_budget ≡ true
      → (request : AgentModelRequest) × (fit_observations e v memory fixed ≡ ok request)
        × (sections_cost e.library.count v.prompt
                (memory_dict request.memory_context)
                (array request.tools)
                (array request.observations)
              + e.reserved_output_tokens
            ≤ e.model_context_tokens)
        × (request.context_token_budget.estimated_input_tokens + e.reserved_output_tokens
            ≤ e.model_context_tokens)
        × (request.context_token_budget.observation_tokens
            ≡ estimate_tokens e.library.count (array request.observations))
        × (request.memory_context ≡ memory)
        × (request.tools ≡ v.tools)
  unfolding fit_observations measured_sections requested Sound
  fit_observations_fits fixed h within =
      let (c, compacted, sound) =
        compact_agent_context-Sound e.library v.task v.run.id (v.run.step_count + 1) v.run.max_steps
          memory v.observations (fixed.input_token_budget - fixed.estimated_input_tokens) in
      let (b, measured, inside, room, cost, tokens) =
        remeasured e.library.count e.model_context_tokens e.reserved_output_tokens v.prompt
          (memory_dict memory) (array v.tools) (array c.model_observations)
          (some (array v.observations)) fixed (measured_ok _ fixed h) within (sound.0) in
      rw (compacted, fit_observations, measured, measured_sections, inside)
        (_, refl, cost, room, tokens, refl, refl)
