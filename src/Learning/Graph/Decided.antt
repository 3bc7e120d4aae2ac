-- ===== src/Learning/Graph/Decided.antt =====
-- app/services/learning_graph.py: what a review decides.
use careerops_agent.Shared.{
  ◌≡◌, refl, subst, String, Bool, true, false, Option, none, some, is_none, Bool-cases, inl, inr,
  Result, ok, raised,
}
use careerops_agent.Learning.Graph.{
  CareerOpsState, LearningSnapshot, resume_review, resume_learning_graph, if_compatible,
  human_review_node, after_review, complete_run_node, block_run_node,
}

abbrev pub outcome : (approved : Bool) → String
outcome true = "completed"
outcome false = "blocked"

-- The result of a resumption: the status of its decision.
abbrev Decides : (approved : Bool) → Result LearningSnapshot → Type 0
Decides approved (raised x) = Unit
Decides approved (ok s) = s.values.status ≡ outcome approved

if_compatible-Decides :
    (approved : Bool) (mismatch : Option String) (result : Result LearningSnapshot)
    → Decides approved result
    → Decides approved (if_compatible mismatch result)
if_compatible-Decides approved none result h = h
if_compatible-Decides approved (some text) result h = tt

resume_review-Decides :
    (approved : Bool) (comment : Option String) (w : CareerOpsState)
    → Decides approved (ok (resume_review approved comment w))
unfolding resume_review human_review_node after_review complete_run_node block_run_node
resume_review-Decides true comment w = refl
resume_review-Decides false comment w = refl

resume-Decides :
    (approved : Bool) (comment : Option String) (current : Option LearningSnapshot)
    → Decides approved (resume_learning_graph approved comment current)
unfolding resume_learning_graph
resume-Decides approved comment none = tt
resume-Decides approved comment (some s) = elim (Bool-cases (is_none s.interrupt)) [
  | inl t ↦ rw t tt
  | inr f ↦ rw f (
      if_compatible-Decides approved _ (ok (resume_review approved comment s.values))
        (resume_review-Decides approved comment s.values))
]

-- The status of a graph after a resumption that returns.
pub resumed_status :
    (approved : Bool) (comment : Option String) (current : Option LearningSnapshot)
    {s : LearningSnapshot}
    → resume_learning_graph approved comment current ≡ ok s
    → s.values.status ≡ outcome approved
resumed_status approved comment current h =
    subst (Decides approved) h (resume-Decides approved comment current)
