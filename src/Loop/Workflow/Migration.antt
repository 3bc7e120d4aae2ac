-- ===== src/Loop/Workflow/Migration.antt =====
-- app/services/agent_workflow.py: the checkpoints of a run's workflow, and their migration from before
-- there were versions. The graph library takes an update as the output of a node: it merges it into
-- the state, and the nodes that come next are those that the edges of that node lead to.
use Prim.Native.String.{◌++◌ as concat}
use careerops_agent.Shared.{
  true, false, ◌≢◌, ◌⊎◌, inl, inr, ◌≡◌, refl, ap, sym, ◌∙◌, String, Bool, not, Option, none, some,
  List, [], ◌∷◌, map, if◌then◌else◌, ◌==◌, Eq_text, Result, ok, raised, value_error,
}
use careerops_agent.Checkpoints.{
  unversioned_checkpoint, checkpoint_version, checkpoint_version_error, require_checkpoint_version,
  require_explicit_source_version,
}
use careerops_agent.Loop.Workflow.{
  AgentWorkflowState, Node, load_context, run_agent, evaluate_result, complete_workflow,
  block_workflow, Snapshot, route_after_evaluation, agent_workflow_version,
}

-- The edges of `build_agent_workflow`.
unfoldable pub successors : Node → AgentWorkflowState → List Node
unfolding route_after_evaluation
successors load_context w = run_agent ∷ []
successors run_agent w = evaluate_result ∷ []
successors evaluate_result w = route_after_evaluation w ∷ []
successors complete_workflow w = []
successors block_workflow w = []

-- The node before a single next one, if it is known.
abbrev pub predecessor : List Node → Option Node
predecessor (run_agent ∷ []) = some load_context
predecessor (evaluate_result ∷ []) = some run_agent
predecessor (complete_workflow ∷ []) = some evaluate_result
predecessor (block_workflow ∷ []) = some evaluate_result
predecessor _ = none

-- `update_state` with the new version, as a node.
abbrev pub updated : Node → AgentWorkflowState → Snapshot
unfolding route_after_evaluation
updated as_node w =
    let w' : AgentWorkflowState = record w { graph_version = some agent_workflow_version } in
    record { values = w'; next = successors as_node w' }

-- An entry of `agent_workflow_checkpoint_history`, without the ids of the library.
pub record WorkflowCheckpoint : Type 0 where
  pub next_nodes : List Node
  pub graph_version : String
  pub runtime_graph_version : String
  pub checkpoint_compatible : Bool
  pub state : AgentWorkflowState

abbrev checkpoint_of : Snapshot → WorkflowCheckpoint
checkpoint_of s = record {
  next_nodes = s.next;
  graph_version = checkpoint_version s.values.graph_version;
  runtime_graph_version = agent_workflow_version;
  checkpoint_compatible = checkpoint_version s.values.graph_version == agent_workflow_version;
  state = s.values;
}

abbrev pub agent_workflow_checkpoint_history : (snapshots : List Snapshot) → List WorkflowCheckpoint
agent_workflow_checkpoint_history snapshots = map checkpoint_of snapshots

pub if_current : Snapshot → (mismatch : Option String) → Result Snapshot
if_current s (some text) = raised (checkpoint_version_error text)
if_current s none = ok s

pub update_as : Option Node → AgentWorkflowState → Result Snapshot
unfolding if_current require_checkpoint_version route_after_evaluation
update_as none w = value_error "agent workflow checkpoint is not at a migratable boundary"
update_as (some node) w = if_current (updated node w) (
    require_checkpoint_version "agent workflow" agent_workflow_version
      (updated node w).values.graph_version)

pub migrate_workflow_from :
    (source_version : String) → Snapshot → (mismatch : Option String) → Result Snapshot
unfolding update_as
migrate_workflow_from source_version s (some text) = raised (checkpoint_version_error text)
migrate_workflow_from source_version s none =
    if not (source_version == unversioned_checkpoint)
    then value_error
        (concat "no agent workflow migration exists from '" (concat source_version "'"))
    else update_as (predecessor s.next) s.values

-- `migrate_agent_workflow_checkpoint`, of the run's last snapshot: the snapshot after it.
unfoldable pub migrate_agent_workflow_checkpoint :
    (source_version : String) → (saved : Option Snapshot) → Result Snapshot
unfolding migrate_workflow_from require_explicit_source_version
migrate_agent_workflow_checkpoint source_version none =
    value_error "agent workflow has no checkpoint to migrate"
migrate_agent_workflow_checkpoint source_version (some s) =
    migrate_workflow_from source_version s
      (require_explicit_source_version source_version s.values.graph_version)

abbrev pub unversioned : AgentWorkflowState → AgentWorkflowState
unversioned w = record w { graph_version = none }

-- No edge looks at the version.
same_successors : (node : Node) (w : AgentWorkflowState) → (updated node w).next ≡ successors node w
unfolding route_after_evaluation successors
same_successors load_context w = refl
same_successors run_agent w = refl
same_successors evaluate_result w = refl
same_successors complete_workflow w = refl
same_successors block_workflow w = refl

before_end :
    (clean : Bool)
    → predecessor ((if clean then complete_workflow else block_workflow) ∷ [])
      ≡ some evaluate_result
before_end true = refl
before_end false = refl

-- The node whose edges lead to the next nodes is the one that the migration takes for it, as two
-- nodes never lead to the same one.
predecessor-successors :
    (node : Node) (w : AgentWorkflowState)
    → (successors node w ≡ []) ⊎ (predecessor (successors node w) ≡ some node)
unfolding successors route_after_evaluation
predecessor-successors load_context w = inr refl
predecessor-successors run_agent w = inr refl
predecessor-successors evaluate_result w = inr (before_end _)
predecessor-successors complete_workflow w = inl refl
predecessor-successors block_workflow w = inl refl

-- The migration of a checkpoint without a version, which an edge of the graph leads on from, changes
-- its version only: the nodes that come next and the rest of the state are the same, the runtime
-- takes the checkpoint for its own, and another migration from the same version raises.
pub migrate_agent_workflow_checkpoint_once :
    (s : Snapshot) (node : Node)
    → s.values.graph_version ≡ none
    → s.next ≡ successors node s.values
    → s.next ≢ []
    → (s' : Snapshot) × (migrate_agent_workflow_checkpoint unversioned_checkpoint (some s) ≡ ok s')
      × (s'.next ≡ s.next)
      × (unversioned s'.values ≡ s.values)
      × (require_checkpoint_version "agent workflow" agent_workflow_version s'.values.graph_version
          ≡ none)
      × (migrate_agent_workflow_checkpoint unversioned_checkpoint (some s')
          ≡ raised (
              checkpoint_version_error
                "checkpoint source version is 'agent-workflow-v1', not requested 'unversioned'"))
unfolding migrate_agent_workflow_checkpoint migrate_workflow_from update_as if_current
    route_after_evaluation require_checkpoint_version require_explicit_source_version
migrate_agent_workflow_checkpoint_once s node version edges more =
    elim (predecessor-successors node s.values) [
      | inl over ↦ absurd (more (edges ∙ over))
      | inr is_node ↦
          let known = ap predecessor edges ∙ is_node in
          (
            updated node s.values,
            rw (version, known) refl,
            same_successors node s.values ∙ sym edges,
            ap (λ v. record s.values { graph_version = v }) (sym version),
            refl,
            refl,
          )
    ]
