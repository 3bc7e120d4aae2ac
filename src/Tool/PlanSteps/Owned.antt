-- ===== src/Tool/PlanSteps/Owned.antt =====
-- `update_plan_step` keeps to the steps of its task, and may be repeated.
use careerops_agent.Shared.{
  ℕ, ◌≡◌, ◌≢◌, refl, ap, Bool, true, not, some, List, [], ◌∷◌, All, first, keep, update_where,
  Bool-cases, Option-cases, inl, inr, ◌==◌, Eq_nat, some_inj, ==_eq, sym, subst, ◌∙◌,
}
use careerops_agent.Tool.Rows.{AgentTask, PlanStep}
use careerops_agent.Tool.PlanSteps.{
  UpdatePlanStepArguments, changed, update_found, update_plan_step,
}

-- Primary keys differ.
abbrev pub UniqueSteps : List PlanStep → Type 0
UniqueSteps [] = Unit {0}
UniqueSteps (s ∷ steps) = All (λ t. t.id ≢ s.id) steps × UniqueSteps steps

-- The steps of other tasks.
abbrev pub foreign : AgentTask → PlanStep → Bool
foreign task s = not (s.task_id == task.id)

module _ (args : UpdatePlanStepArguments) where
  first-update_where :
      (steps : List PlanStep) {s : PlanStep}
      → first (λ t. t.id == args.plan_step_id) steps ≡ some s
      → first
          (λ t. t.id == args.plan_step_id)
          (update_where (λ t. t.id == args.plan_step_id) (changed args) steps)
        ≡ some (changed args s)
  first-update_where [] h = cc
  first-update_where (x ∷ steps) h = elim (Bool-cases (x.id == args.plan_step_id)) [
    | inl t ↦ rw t (rw t (ap (λ y. some (changed args y)) (some_inj (rw t at h))))
    | inr f ↦ rw f (rw f (first-update_where steps (rw f at h)))
  ]

  update_where_twice :
      (steps : List PlanStep)
      → update_where
          (λ t. t.id == args.plan_step_id)
          (changed args)
          (update_where (λ t. t.id == args.plan_step_id) (changed args) steps)
        ≡ update_where (λ t. t.id == args.plan_step_id) (changed args) steps
  update_where_twice [] = refl
  update_where_twice (x ∷ steps) = elim (Bool-cases (x.id == args.plan_step_id)) [
    | inl t ↦ rw t (rw t (ap (◌∷◌ (changed args x)) (update_where_twice steps)))
    | inr f ↦ rw f (rw f (ap (◌∷◌ x) (update_where_twice steps)))
  ]

  absent-update_where :
      (i : ℕ) (steps : List PlanStep)
      → i ≡ args.plan_step_id
      → All (λ t. t.id ≢ i) steps
      → update_where (λ t. t.id == args.plan_step_id) (changed args) steps ≡ steps
  absent-update_where i [] e h = refl
  absent-update_where i (x ∷ steps) e h = elim (Bool-cases (x.id == args.plan_step_id)) [
    | inl t ↦ absurd (h.0 (==_eq x.id args.plan_step_id t ∙ sym e))
    | inr f ↦ rw f (ap (◌∷◌ x) (absent-update_where i steps e h.1))
  ]

  keep-foreign :
      (task : AgentTask) (steps : List PlanStep) {s : PlanStep}
      → UniqueSteps steps
      → first (λ t. t.id == args.plan_step_id) steps ≡ some s
      → (s.task_id == task.id) ≡ true
      → keep (foreign task) (update_where (λ t. t.id == args.plan_step_id) (changed args) steps)
        ≡ keep (foreign task) steps
  keep-foreign task [] u h own = refl
  keep-foreign task (x ∷ steps) {s} u h own = elim (Bool-cases (x.id == args.plan_step_id)) [
    | inl t ↦
        let own_x = subst (λ y. (y.task_id == task.id) ≡ true) (sym (some_inj (rw t at h))) own in
        rw (t, own_x) (ap (keep (foreign task)) (absent-update_where x.id steps (==_eq _ _ t) u.0))
    | inr f ↦
        let later = keep-foreign task steps u.1 (rw f at h) own in
        elim (Bool-cases (x.task_id == task.id)) [
          | inl g ↦ rw (f, g) later
          | inr g ↦ rw (f, g) (ap (◌∷◌ x) later)
        ]
  ]

-- `update_plan_step` is naturally idempotent, as its repeat policy says: run again, it returns the
-- same and changes nothing more.
pub update_plan_step_twice :
    (task : AgentTask) (args : UpdatePlanStepArguments) (steps : List PlanStep)
    → let (result, after) = update_plan_step task args steps in
      update_plan_step task args after ≡ (result, after)
unfolding update_plan_step update_found
update_plan_step_twice task args steps =
    elim (Option-cases (first (λ t. t.id == args.plan_step_id) steps)) [
      | inl e ↦ rw e (rw e refl)
      | inr (s, e) ↦ elim (Bool-cases (s.task_id == task.id)) [
        | inl t ↦ rw (e, t, first-update_where args steps e, t, update_where_twice args steps) refl
        | inr f ↦ rw (e, f, e, f) refl
      ]
    ]

-- Whatever its arguments, it leaves the steps of other tasks as they are.
pub update_plan_step-foreign :
    (task : AgentTask) (args : UpdatePlanStepArguments) (steps : List PlanStep)
    → UniqueSteps steps
    → keep (foreign task) (update_plan_step task args steps).1 ≡ keep (foreign task) steps
unfolding update_plan_step update_found
update_plan_step-foreign task args steps u =
    elim (Option-cases (first (λ t. t.id == args.plan_step_id) steps)) [
      | inl e ↦ rw e refl
      | inr (s, e) ↦ elim (Bool-cases (s.task_id == task.id)) [
        | inl t ↦ rw (e, t) (keep-foreign args task steps u e t)
        | inr f ↦ rw (e, f) refl
      ]
    ]
