-- ===== src/Learning/Graph/Migration.antt =====
-- app/services/learning_graph.py: a checkpoint from before there were versions.
use Prim.Native.String.{◌++◌ as concat}
use careerops_agent.Shared.{
  String, Bool, true, false, not, Option, none, some, List, [], ◌∷◌, if◌then◌else◌, ◌==◌, Eq_text,
  Result, ok, raised, value_error,
}
use careerops_agent.Checkpoints.{
  unversioned_checkpoint, checkpoint_version, checkpoint_version_error,
  require_explicit_source_version,
}
use careerops_agent.Learning.Graph.{
  CareerOpsState, LearningNode, LearningSnapshot, human_review, learning_graph_version,
  route_after_validation, after_validation,
}

-- `next_nodes == ["human_review"]`
abbrev pub is_at_review : List LearningNode → Bool
is_at_review (human_review ∷ []) = true
is_at_review _ = false

-- `update_state` as `validate_plan`, and `invoke` on the pending edge.
unfoldable pub migrated_review : CareerOpsState → LearningSnapshot
unfolding after_validation
migrated_review w =
    let w' : CareerOpsState = record w { graph_version = some learning_graph_version } in
    after_validation (route_after_validation w') w'

unfoldable pub compatible_or_raised : LearningSnapshot → Result LearningSnapshot
compatible_or_raised s =
    if checkpoint_version s.values.graph_version == learning_graph_version
    then ok s
    else value_error "learning graph migration did not produce a compatible checkpoint"

unfoldable pub migrate_from :
    (source_version : String)
    → LearningSnapshot
    → (mismatch : Option String) → Result LearningSnapshot
unfolding migrated_review compatible_or_raised
migrate_from source_version s (some text) = raised (checkpoint_version_error text)
migrate_from source_version s none =
    if not (source_version == unversioned_checkpoint)
    then value_error
        (concat "no learning graph migration exists from '" (concat source_version "'"))
    else if not (is_at_review s.next)
    then value_error "unversioned learning graph migration only supports the human-review boundary"
    else compatible_or_raised (migrated_review s.values)

-- `migrate_learning_graph_checkpoint`
unfoldable pub migrate_learning_graph_checkpoint :
    (source_version : String) → (current : Option LearningSnapshot) → Result LearningSnapshot
unfolding migrate_from require_explicit_source_version
migrate_learning_graph_checkpoint source_version none =
    value_error "learning graph has no checkpoint to migrate"
migrate_learning_graph_checkpoint source_version (some s) =
    migrate_from source_version s
      (require_explicit_source_version source_version s.values.graph_version)
