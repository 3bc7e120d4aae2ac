-- ===== src/Learning/Graph/Approved.antt =====
-- app/services/learning_graph.py: a plan is completed only when it is whole and a person approved it.
use careerops_agent.Shared.{
  ◌≡◌, refl, subst, String, Bool, true, false, Option, none, some, is_some, is_none, Bool-cases,
  Option-cases, inl, inr, Result, ok, raised, value_error, ◌==◌, ==_refl, Eq_text,
}
use careerops_agent.Checkpoints.{unversioned_checkpoint, checkpoint_version}
use careerops_agent.Context.Task.{PlannedTask}
use careerops_agent.Jobs.Rows.{JobDb}
use careerops_agent.Learning.Graph.Migration.{
  is_at_review, migrate_from, migrated_review, compatible_or_raised,
  migrate_learning_graph_checkpoint,
}
use careerops_agent.Learning.Graph.{
  CareerOpsState, LearningSnapshot, is_empty, plan_errors, load_skill_demand_node, build_plan_node,
  validate_plan_node, complete_run_node, block_run_node, human_review_node, awaiting_review,
  after_validation, after_review, invoke_learning_graph, resume_review, first_learning_state,
  start_learning_graph, resume_learning_graph, if_compatible, learning_graph_version,
  route_after_validation,
}

-- A plan for demanded skills, of a task with success criteria.
abbrev pub IsWhole : CareerOpsState → Type 0
IsWhole w =
    (is_empty w.top_skills ≡ false)
    × (is_empty w.learning_plan ≡ false)
    × (is_empty w.success_criteria ≡ false)

-- A plan that waits for a review is whole, and a completed one is approved as well.
abbrev pub IsHonest : LearningSnapshot → Type 0
IsHonest s =
    (is_some s.interrupt ≡ true → IsWhole s.values)
    × (is_at_review s.next ≡ true → IsWhole s.values)
    × (s.values.status ≡ "completed" → IsWhole s.values × (s.values.approved ≡ some true))

no_errors : (w : CareerOpsState) → is_empty (plan_errors w) ≡ true → IsWhole w
no_errors w h = elim (Bool-cases (is_empty w.top_skills)) [
  | inl t ↦ cc (rw t at h)
  | inr f ↦ elim (Bool-cases (is_empty w.learning_plan)) [
    | inl t ↦ cc (rw (f, t) at h)
    | inr g ↦ elim (Bool-cases (is_empty w.success_criteria)) [
      | inl t ↦ cc (rw (f, g, t) at h)
      | inr k ↦ (f, g, k)
    ]
  ]
]

other_text : (a b : String) → (a == b) ≡ false → {A : Type 0} → a ≡ b → A
other_text a b h e = cc (rw (e, ==_refl b) at h)

after_validation-IsHonest :
    (w : CareerOpsState)
    → (is_empty w.validation_errors ≡ true → IsWhole w)
    → (w.status ≡ "completed" → IsWhole w × (w.approved ≡ some true))
    → IsHonest (after_validation (route_after_validation w) w)
unfolding after_validation awaiting_review block_run_node
after_validation-IsHonest w whole other = elim (Bool-cases (is_empty w.validation_errors)) [
  | inl t ↦ rw t (λ h. whole t, λ h. whole t, other)
  | inr f ↦ rw f (λ h. cc, λ h. cc, other_text "blocked" "completed" refl)
]

resume_review-IsHonest :
    (approved : Bool) (comment : Option String) (w : CareerOpsState)
    → IsWhole w
    → IsHonest (resume_review approved comment w)
unfolding resume_review human_review_node after_review complete_run_node block_run_node
resume_review-IsHonest true comment w whole = (λ h. cc, λ h. cc, λ e. (whole, refl))
resume_review-IsHonest false comment w whole =
    (λ h. cc, λ h. cc, other_text "blocked" "completed" refl)

-- A result that is honest, if there is one.
abbrev Honest : Result LearningSnapshot → Type 0
Honest (raised x) = Unit
Honest (ok s) = IsHonest s

if_compatible-Honest :
    (mismatch : Option String) (result : Result LearningSnapshot)
    → Honest result
    → Honest (if_compatible mismatch result)
if_compatible-Honest none result h = h
if_compatible-Honest (some text) result h = tt

-- The honesty of a thread, which may be empty.
abbrev pub IsThread : Option LearningSnapshot → Type 0
IsThread none = Unit
IsThread (some s) = IsHonest s

validated-IsHonest :
    (w : CareerOpsState)
    → (let w' = validate_plan_node w in IsHonest (after_validation (route_after_validation w') w'))
unfolding validate_plan_node
validated-IsHonest w =
    after_validation-IsHonest (validate_plan_node w) (no_errors w)
      (elim (Bool-cases (is_empty (plan_errors w))) [
        | inl t ↦ rw t (other_text "plan_validated" "completed" refl)
        | inr f ↦ rw f (other_text "validation_failed" "completed" refl)
      ])

start-Honest :
    (db : JobDb) (task : PlannedTask) (current : Option LearningSnapshot)
    → IsThread current
    → Honest (start_learning_graph db task current)
unfolding start_learning_graph invoke_learning_graph first_learning_state validate_plan_node
    build_plan_node load_skill_demand_node
start-Honest db task none h =
    validated-IsHonest (build_plan_node (load_skill_demand_node db (first_learning_state task)))
start-Honest db task (some s) h = if_compatible-Honest _ (ok s) h

resume-Honest :
    (approved : Bool) (comment : Option String) (current : Option LearningSnapshot)
    → IsThread current
    → Honest (resume_learning_graph approved comment current)
unfolding resume_learning_graph
resume-Honest approved comment none h = tt
resume-Honest approved comment (some s) (waiting, pending, over) = elim (Option-cases s.interrupt) [
  | inl e ↦ rw e tt
  | inr (request, e) ↦ rw e (
      if_compatible-Honest _ (ok (resume_review approved comment s.values))
        (resume_review-IsHonest approved comment s.values (waiting (rw e refl))))
]

-- A resumption that completes the graph of an honest thread had a whole plan.
pub resumed-IsWhole :
    (approved : Bool) (comment : Option String) (current : Option LearningSnapshot)
    {s : LearningSnapshot}
    → IsThread current
    → resume_learning_graph approved comment current ≡ ok s
    → s.values.status ≡ "completed"
    → IsWhole s.values
resumed-IsWhole approved comment current h e done =
    let (waiting, pending, over) = subst Honest e (resume-Honest approved comment current h) in
    (over done).0

migrated-Honest : (s : LearningSnapshot) → Honest (ok s) → Honest (compatible_or_raised s)
unfolding compatible_or_raised
migrated-Honest s h =
    elim (Bool-cases (checkpoint_version s.values.graph_version == learning_graph_version)) [
      | inl t ↦ rw t h
      | inr f ↦ rw f tt
    ]

migrate_from-Honest :
    (source_version : String) (s : LearningSnapshot) (mismatch : Option String)
    → IsHonest s
    → Honest (migrate_from source_version s mismatch)
unfolding migrate_from migrated_review
migrate_from-Honest source_version s (some text) h = tt
migrate_from-Honest source_version s none (waiting, pending, over) =
    elim (Bool-cases (source_version == unversioned_checkpoint)) [
      | inr f ↦ rw f tt
      | inl t ↦ elim (Bool-cases (is_at_review s.next)) [
        | inr f ↦ rw (t, f) tt
        | inl at_review ↦
            (let w : CareerOpsState = record s.values {
              graph_version = some learning_graph_version;
            } in
              rw (t, at_review)
                (migrated-Honest (migrated_review s.values)
                  (after_validation-IsHonest w (λ none_found. pending at_review) over)))
      ]
    ]

migrate-Honest :
    (source_version : String) (current : Option LearningSnapshot)
    → IsThread current
    → Honest (migrate_learning_graph_checkpoint source_version current)
unfolding migrate_learning_graph_checkpoint
migrate-Honest source_version none h = tt
migrate-Honest source_version (some s) h = migrate_from-Honest source_version s _ h

-- What changes the thread of a task: an operation that returns. The jobs may change between them.
pub data Step (task : PlannedTask) (current : Option LearningSnapshot)
    : Option LearningSnapshot → Type 0 where
  starts :
      (db : JobDb) {s : LearningSnapshot}
      → start_learning_graph db task current ≡ ok s
      → Step task current (some s)
  resumes :
      (approved : Bool) (comment : Option String) {s : LearningSnapshot}
      → resume_learning_graph approved comment current ≡ ok s
      → Step task current (some s)
  migrates :
      (source_version : String) {s : LearningSnapshot}
      → migrate_learning_graph_checkpoint source_version current ≡ ok s
      → Step task current (some s)

pub data Reaches (task : PlannedTask) (first : Option LearningSnapshot)
    : Option LearningSnapshot → Type 0 where
  at_first : Reaches task first first
  later :
      {s t : Option LearningSnapshot} → Reaches task first s → Step task s t → Reaches task first t

Step-IsThread :
    (task : PlannedTask) {s t : Option LearningSnapshot} → Step task s t → IsThread s → IsThread t
Step-IsThread task {s} (starts db e) h = subst Honest e (start-Honest db task s h)
Step-IsThread task {s} (resumes approved comment e) h =
    subst Honest e (resume-Honest approved comment s h)
Step-IsThread task {s} (migrates source_version e) h =
    subst Honest e (migrate-Honest source_version s h)

-- Over any sequence of starts, resumptions and migrations of a thread that is empty or honest at
-- first, a learning plan waits for a review only if it is whole, and its graph is completed only if
-- it is whole and a person approved it.
pub Reaches-IsThread :
    (task : PlannedTask) (first : Option LearningSnapshot) {s : Option LearningSnapshot}
    → IsThread first
    → Reaches task first s
    → IsThread s
Reaches-IsThread task first h at_first = h
Reaches-IsThread task first h (later r step) =
    Step-IsThread task step (Reaches-IsThread task first h r)

-- A result whose graph does not wait.
abbrev Over : Result LearningSnapshot → Type 0
Over (raised x) = Unit
Over (ok s) = s.interrupt ≡ none

if_compatible-Over :
    (mismatch : Option String) (result : Result LearningSnapshot)
    → Over result
    → Over (if_compatible mismatch result)
if_compatible-Over none result h = h
if_compatible-Over (some text) result h = tt

resume_review-Over :
    (approved : Bool) (comment : Option String) (w : CareerOpsState)
    → Over (ok (resume_review approved comment w))
unfolding resume_review human_review_node after_review complete_run_node block_run_node
resume_review-Over true comment w = refl
resume_review-Over false comment w = refl

resume-Over :
    (approved : Bool) (comment : Option String) (current : Option LearningSnapshot)
    → Over (resume_learning_graph approved comment current)
unfolding resume_learning_graph
resume-Over approved comment none = tt
resume-Over approved comment (some s) = elim (Bool-cases (is_none s.interrupt)) [
  | inl t ↦ rw t tt
  | inr f ↦ rw f (
      if_compatible-Over _ (ok (resume_review approved comment s.values))
        (resume_review-Over approved comment s.values))
]

-- A plan is reviewed once: after a resumption that returns, the next one raises.
pub resume_learning_graph_once :
    (approved again : Bool) (comment other : Option String) (current : Option LearningSnapshot)
    {s : LearningSnapshot}
    → resume_learning_graph approved comment current ≡ ok s
    → resume_learning_graph again other (some s)
      ≡ value_error "learning graph is not waiting for approval"
unfolding resume_learning_graph
resume_learning_graph_once approved again comment other current h =
    rw (subst Over h (resume-Over approved comment current)) refl
