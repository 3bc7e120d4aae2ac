-- ===== src/Loop/Record.antt =====
-- app/services/agent_loop.py: the step that keeps a model's decision.
pub mod Counts
use Prim.Native.String.{◌++◌ as concat}
use careerops_agent.Shared.{
  ℕ, suc, ◌+◌, String, Bool, true, false, not, ◌&&◌, ◌||◌, Option, none, some, List, [], ◌∷◌, ◌++◌,
  length, if◌then◌else◌, ◌==◌, Eq_nat, Eq_text, or_else,
}
use careerops_agent.Shared.Text.{decimal}
use careerops_agent.Tool.Rows.{Json, num, obj, field, AgentRunStep}
use careerops_agent.Context.Json.{get}
use careerops_agent.Run.Rows.{
  AgentRun, RunStep, AgentDecision, AgentModelRequest, is_running, TraceEntry,
}
use careerops_agent.Loop.Model.{Result, ok, raised, value_error}
use careerops_agent.Loop.Store.{Store, get_run, put_run}

abbrev pub entry :
    (task_id : ℕ) (event_type status input_summary output_summary : String) → TraceEntry
entry task_id event_type status input_summary output_summary = record {
  task_id = task_id;
  event_type = event_type;
  status = status;
  input_summary = input_summary;
  output_summary = output_summary;
}

abbrev in_step : (text : String) (run_id : ℕ) (middle : String) (sequence : ℕ) → String
in_step text run_id middle sequence =
    concat text (concat (decimal run_id) (concat middle (concat (decimal sequence) ".")))

compaction_entries : AgentRun → (sequence : ℕ) → AgentModelRequest → List TraceEntry
unfolding decimal
compaction_entries run sequence request =
    if not request.context_compaction.triggered
    then []
    else (entry run.task_id "context_compaction" "applied"
          (in_step "Compact context for Agent run " run.id ", step " sequence)
          (concat "Reduced observations from " (
            concat (decimal request.context_compaction.raw_observation_tokens) (
              concat " to " (
                concat (decimal request.context_token_budget.observation_tokens)
                  " estimated tokens."))))
        ∷ [])

-- `retrieval.get(key, 0)`, of a number.
retrieved : String → AgentModelRequest → ℕ
unfolding get
retrieved key request = elim (get key (get "retrieval" (obj request.memory_context.others))) [
  | num n ↦ n
  | _ ↦ 0
]

retrieval_entries : AgentRun → (sequence : ℕ) → AgentModelRequest → List TraceEntry
unfolding decimal retrieved
retrieval_entries run sequence request =
    if retrieved "candidate_count" request == 0
      && retrieved "knowledge_candidate_count" request == 0
    then []
    else (entry run.task_id "retrieval" "assembled"
          (in_step "Retrieve context for Agent run " run.id ", step " sequence)
          (concat "Selected " (
            concat (decimal (retrieved "selected_count" request)) (
              concat " memories and " (
                concat (decimal (retrieved "knowledge_selected_count" request))
                  " JD evidence items."))))
        ∷ [])

model_entry : AgentRun → (sequence : ℕ) → AgentDecision → TraceEntry
unfolding decimal
model_entry run sequence decision =
    entry run.task_id "model_call" decision.action_type
      (in_step "Agent run " run.id ", model step " sequence)
      (if decision.action_type == "tool_call"
        then concat "Model proposed tool " (concat (or_else decision.tool_name "None") ".")
        else "Model returned a final answer.")

pub new_step : Store → AgentRun → AgentModelRequest → AgentDecision → RunStep
new_step s run request decision = record {
  id = suc (length s.steps);
  run_id = run.id;
  task_id = run.task_id;
  sequence = run.step_count + 1;
  action_type = decision.action_type;
  model_request = request;
  model_response = decision;
  observation = none;
  created_at = s.db.outside.clock;
}

-- The new step's id. Its row of the tool runtime has no link yet.
pub record_running : Store → AgentRun → AgentModelRequest → AgentDecision → Result ℕ × Store
unfolding new_step compaction_entries retrieval_entries model_entry
record_running s run request decision =
    let sequence = run.step_count + 1 in
    let step = new_step s run request decision in
    let link : AgentRunStep = record { id = step.id; tool_call_id = none } in
    (
      ok step.id,
      put_run (record run { step_count = sequence })
          (record s {
            db = record s.db { run_steps = s.db.run_steps ++ link ∷ [] };
            steps = s.steps ++ step ∷ [];
            entries =
                s.entries
                ++ compaction_entries run sequence request
                ++ retrieval_entries run sequence request
                ++ model_entry run sequence decision ∷ [];
          }),
    )

pub record_found : Store → Option AgentRun → AgentModelRequest → AgentDecision → Result ℕ × Store
unfolding record_running
record_found s none request decision = (value_error "agent run is not running", s)
record_found s (some run) request decision =
    if not (is_running run.status)
    then (value_error "agent run is not running", s)
    else record_running s run request decision

-- `_record_model_decision`
unfoldable pub record_model_decision :
    Store → (run_id : ℕ) → AgentModelRequest → AgentDecision → Result ℕ × Store
unfolding record_found
record_model_decision s run_id request decision = record_found s (get_run s run_id) request decision
