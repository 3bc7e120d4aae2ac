-- ===== src/Context/Agent/Sound.antt =====
-- What a step's context keeps of the task, and the budget that it keeps to.
use careerops_agent.Shared.{
  map, keep, subst, sym, ◌==◌, Eq_text, ℕ, ◌≤◌, ◌≡◌, true, false, ◌||◌, some, List, [], ◌∷◌, leb,
  arith, refl, inl, inr, Bool-cases,
}
use careerops_agent.Tool.Rows.{Json, num, str, obj, field}
use careerops_agent.Context.Json.{array, get, with_field}
use careerops_agent.Context.Budget.{estimate_tokens}
use careerops_agent.Context.Task.{
  PlannedTask, MemoryContext, execution_context, context_with, plan_step_snapshot,
}
use careerops_agent.Context.Compaction.{Library}
use careerops_agent.Context.Compaction.Fits.{Fits, compact_observations-Settles}
use careerops_agent.Context.Agent.{
  ContextCompactionResult, is_empty_list, uncompacted, compacted, compact_agent_context,
}

-- What a context says of the run: whose task and which step it is, and what is done and blocked.
unfoldable pub Tells :
    PlannedTask → (run_id step_number max_steps : ℕ) → (execution : Json) → Type 0
Tells task run_id step_number max_steps execution =
    (get "task_id" execution ≡ num task.id)
    × (get "run_id" execution ≡ num run_id)
    × (get "step_number" execution ≡ num step_number)
    × (get "max_steps" execution ≡ num max_steps)
    × (get "completed_actions" execution
        ≡ array (map plan_step_snapshot (keep (λ s. s.status == "completed") task.plan_steps)))
    × (get "unresolved_blockers" execution
        ≡ array (map plan_step_snapshot (keep (λ s. s.status == "blocked") task.plan_steps)))

-- The entries of a context, by their keys.
unfoldable pub IsContextOf :
    PlannedTask
    → (run_id step_number max_steps : ℕ) → MemoryContext
    → (observations : List Json) → Json
    → Type 0
IsContextOf task run_id step_number max_steps memory observations context =
    (get "goal_contract" context ≡ memory.goal_contract)
    × (get "id" (get "task" context) ≡ num task.id)
    × (get "title" (get "task" context) ≡ str task.title)
    × (get "user_goal" (get "task" context) ≡ str task.user_goal)
    × (get "constraints" (get "task" context) ≡ array (map str task.constraints))
    × (get "success_criteria" (get "task" context) ≡ array (map str task.success_criteria))
    × Tells task run_id step_number max_steps (get "execution_context" context)
    × (get "memory_context" context
        ≡ obj (field "goal_contract" memory.goal_contract memory.others))
    × (get "observations" context ≡ array observations)

-- The observations fit, and the context that the model reads has the entries of the task with these
-- observations.
unfoldable pub Sound :
    Library
    → PlannedTask
    → (run_id step_number max_steps : ℕ) → MemoryContext
    → (observations : List Json) → (budget : ℕ) → ContextCompactionResult
    → Type 0
Sound lib task run_id step_number max_steps memory observations budget r =
    (estimate_tokens lib.count (array r.model_observations) ≤ budget)
    × IsContextOf task run_id step_number max_steps memory r.model_observations r.compacted_context
    × IsContextOf task run_id step_number max_steps memory observations r.raw_context
    × (r.triggered ≡ false → r.compacted_context ≡ r.raw_context)

module _ (task : PlannedTask) (run_id step_number max_steps : ℕ) (memory : MemoryContext) where
  abbrev context_now : List Json → Json
  context_now = context_with task (execution_context task run_id step_number max_steps) memory

  context_with-IsContextOf :
      (observations : List Json)
      → IsContextOf task run_id step_number max_steps memory observations (context_now observations)
  unfolding IsContextOf Tells context_with execution_context get
  context_with-IsContextOf observations =
      (refl, refl, refl, refl, refl, refl, (refl, refl, refl, refl, refl, refl), refl, refl)

  -- Replacing the observations of a context leaves every other entry.
  replaced :
      (before after : List Json)
      → with_field "observations" (array after) (context_now before) ≡ context_now after
  unfolding context_with with_field
  replaced before after = refl

empty-le :
    (lib : Library) (observations : List Json) (budget : ℕ)
    → (leb (estimate_tokens lib.count (array observations)) budget || is_empty_list observations)
      ≡ true
    → estimate_tokens lib.count (array observations) ≤ budget
unfolding estimate_tokens
empty-le lib [] budget h = omega arith
empty-le lib (o ∷ observations) budget h = ground arith

-- The context of a step is always built, and its observations are within the budget. Whatever is
-- compacted, it tells the goal contract, the task with its goal, constraints and criteria, the run
-- with its step, limit, completed and blocked steps, and the memory, each as they are, with the
-- observations that are left; and the context before the compaction tells the same with all of them.
pub compact_agent_context-Sound :
    (lib : Library) (task : PlannedTask) (run_id step_number max_steps : ℕ)
    (memory_context : MemoryContext) (observations : List Json) (budget : ℕ)
    → (r : ContextCompactionResult) × (compact_agent_context lib task run_id step_number max_steps
          memory_context observations budget
        ≡ some r)
      × Sound lib task run_id step_number max_steps memory_context observations budget r
unfolding compact_agent_context Sound uncompacted compacted Fits
compact_agent_context-Sound lib task run_id step_number max_steps memory_context observations
      budget =
    let whole = context_with-IsContextOf task run_id step_number max_steps memory_context in
    elim (Bool-cases
      (leb (estimate_tokens lib.count (array observations)) budget || is_empty_list observations)) [
        | inl t ↦ rw t (
          _,
          refl,
          (empty-le lib observations budget t, whole observations, whole observations, λ _. refl),
        )
        | inr f ↦
            let (c, e, fits) = compact_observations-Settles lib observations budget in
            rw (f, e)
              (
                _,
                refl,
                (
                  fits,
                  subst
                      (IsContextOf task run_id step_number max_steps memory_context c.observations)
                      (sym (
                        replaced task run_id step_number max_steps memory_context observations
                          c.observations))
                      (whole c.observations),
                  whole observations,
                  λ n. cc,
                ),
              )
      ]
