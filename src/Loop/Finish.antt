-- ===== src/Loop/Finish.antt =====
-- app/services/agent_loop.py: how a run ends.
pub mod Ended
use Prim.Native.String.{◌++◌ as concat}
use careerops_agent.Shared.{
  ℕ, ◌+◌, ◌≤◌, String, Bool, true, false, not, Option, none, some, List, [], ◌∷◌, ◌++◌, last, leb,
  if◌then◌else◌, ◌==◌, Eq_text, or_else, is_none,
}
use careerops_agent.Shared.Text.{decimal}
use careerops_agent.Context.Task.{PlannedTask}
use careerops_agent.Memory.Rows.{MemoryDb, MemoryType, working, episodic, fact}
use careerops_agent.Memory.Lifecycle.{retire_run_working_memories}
use careerops_agent.Memory.Rules.{is_accept, verdict_name}
use careerops_agent.Memory.Semantics.{MemoryEvaluation}
use careerops_agent.Memory.Capture.{evaluate_and_store_run_memories}
use careerops_agent.Memory.Maintenance.{maintain_task_memories}
use careerops_agent.Run.Rows.{RunStatus, is_running, AgentRun, RunStep, AgentDecision, TraceEntry}
use careerops_agent.Loop.Model.{Result, ok, raised, Exception, value_error}
use careerops_agent.Loop.Store.{Store, Engine, get_run, get_task, steps_in, put_run, evidence}
use careerops_agent.Loop.Record.{entry}

abbrev type_name : MemoryType → String
type_name working = "working"
type_name episodic = "episodic"
type_name fact = "fact"

-- `retire_run_working_memories` on the table of a store.
retired_for : (run_id : ℕ) (reason : String) → Store → Store
unfolding retire_run_working_memories
retired_for run_id reason s = record s {
  memory = record (s.memory) {
    memories = (retire_run_working_memories s.db.outside.clock run_id reason s.memory.memories).1;
  };
}

evaluation_entry : AgentRun → MemoryEvaluation → TraceEntry
unfolding decimal
evaluation_entry run z =
    entry run.task_id "memory" (verdict_name z.decision)
      (concat "Evaluate " (
        concat (type_name z.candidate.memory_type)
          (concat " candidate from Agent run " (concat (decimal run.id) "."))))
      (if is_accept z.decision
        then concat "Accepted " (
            concat (type_name z.candidate.memory_type)
              (concat " candidate; storage action: " (concat z.storage_action ".")))
        else concat "Candidate decision: " (concat (verdict_name z.decision) "."))

evaluation_entries : AgentRun → List MemoryEvaluation → List TraceEntry
unfolding evaluation_entry
evaluation_entries run [] = []
evaluation_entries run (z ∷ zs) = evaluation_entry run z ∷ evaluation_entries run zs

-- What `maintain_task_memories` leaves, with the limits that it is called with here.
maintained_memory : (now : ℕ) → PlannedTask → MemoryDb → MemoryDb × List TraceEntry
unfolding maintain_task_memories
maintained_memory now task memory = elim (maintain_task_memories false false 8 30 now task memory) [
  | none ↦ (memory, [])
  | some (report, memory', entries) ↦ (memory', entries)
]

abbrev numbered_text : (before : String) (n : ℕ) (after : String) → String
numbered_text before n after = concat before (concat (decimal n) after)

module _ (e : Engine) where
  -- The run's memories are evaluated, its working memories retired and the task's kept up.
  pub complete_present : Store → AgentRun → PlannedTask → (answer : String) → Store
  unfolding evaluate_and_store_run_memories retired_for maintained_memory evaluation_entries decimal
  complete_present s run task answer =
      let done = record run {
        status = RunStatus.completed;
        final_answer = some answer;
        stop_reason = some "final_answer";
        completed_at = some s.db.outside.clock;
      } in
      let s' = put_run done s in
      let (evaluations, memory) =
        evaluate_and_store_run_memories e.texts s.db.outside.clock s.memory (evidence s') task done
          answer in
      let ended = retired_for run.id "agent_run_completed" (record s' { memory = memory }) in
      let (memory', upkeep) = maintained_memory s.db.outside.clock task ended.memory in
      record ended {
        memory = memory';
        entries =
            s.entries
            ++ upkeep
            ++ evaluation_entries run evaluations
            ++ entry run.task_id "agent_run" "completed"
                (numbered_text "Agent run " run.id " returned a final answer.") answer
              ∷ [];
      }

  pub complete_found :
      Store
      → Option AgentRun
      → (task : AgentRun → Option PlannedTask) → (answer : String) → Result (Unit {0}) × Store
  unfolding complete_present
  complete_found s none task answer = (value_error "agent run no longer exists", s)
  complete_found s (some run) task answer = elim (task run) [
    | none ↦ (raised (record { kind = "AttributeError"; text = "no task" }), s)
    | some t ↦ (ok tt, complete_present s run t answer)
  ]

  -- `_complete_run`
  unfoldable pub complete_run : Store → (run_id : ℕ) (answer : String) → Result (Unit {0}) × Store
  unfolding complete_found
  complete_run s run_id answer =
      complete_found s (get_run s run_id) (λ run. get_task s run.task_id) answer

  abbrev boundary_done : Result (Unit {0}) × Store → Result Bool × Store
  boundary_done (raised x, s) = (raised x, s)
  boundary_done (ok u, s) = (ok true, s)

  pub finish_latest : Store → (run_id : ℕ) → Option RunStep → Result Bool × Store
  unfolding complete_run
  finish_latest s run_id none = (ok false, s)
  finish_latest s run_id (some latest) =
      if latest.action_type == "final_answer"
      then boundary_done (complete_run s run_id (or_else latest.model_response.content ""))
      else if is_none latest.observation
      then (
        raised (record {
          kind = "RuntimeError";
          text = "agent run has an incomplete tool step; recovery is required";
        }),
        s,
      )
      else (ok false, s)

  pub finish_found : Store → (run_id : ℕ) → Option AgentRun → Result Bool × Store
  unfolding finish_latest
  finish_found s run_id none = (value_error "agent run no longer exists", s)
  finish_found s run_id (some run) =
      if not (is_running run.status)
      then (ok true, s)
      else finish_latest s run_id (last (steps_in s run.id))

  -- `_finish_committed_boundary`: whether there is nothing left to do.
  unfoldable pub finish_committed_boundary : Store → (run_id : ℕ) → Result Bool × Store
  unfolding finish_found
  finish_committed_boundary s run_id = finish_found s run_id (get_run s run_id)

-- `_step_limit_reached`
unfoldable pub limit_reached : Option AgentRun → Result Bool
limit_reached none = value_error "agent run no longer exists"
limit_reached (some run) = ok (leb run.max_steps run.step_count)

unfoldable pub step_limit_reached : Store → (run_id : ℕ) → Result Bool
unfolding limit_reached
step_limit_reached s run_id = limit_reached (get_run s run_id)

-- `_stop_at_limit`
pub stop_found : Store → Option AgentRun → Result (Unit {0}) × Store
unfolding retired_for decimal
stop_found s none = (value_error "agent run no longer exists", s)
stop_found s (some run) =
    let stopped = record run {
      status = RunStatus.max_steps;
      stop_reason = some "max_steps_reached";
      completed_at = some s.db.outside.clock;
    } in
    let ended = retired_for run.id "agent_run_max_steps" (put_run stopped s) in
    (
      ok tt,
      record ended {
        entries =
            s.entries
            ++ entry run.task_id "agent_run" "max_steps"
                (numbered_text "Agent run " run.id " reached its execution limit.")
                (numbered_text "Stopped after " run.step_count " model step(s).")
              ∷ [];
      },
    )

unfoldable pub stop_at_limit : Store → (run_id : ℕ) → Result (Unit {0}) × Store
unfolding stop_found
stop_at_limit s run_id = stop_found s (get_run s run_id)

-- `_mark_failed`
pub mark_found : Store → Option AgentRun → Exception → Store
unfolding retired_for decimal
mark_found s none x = s
mark_found s (some run) x =
    let error = concat x.kind (concat ": " x.text) in
    let failed_run = record run {
      status = RunStatus.failed;
      stop_reason = some "runtime_error";
      error = some error;
      completed_at = some s.db.outside.clock;
    } in
    let ended = retired_for run.id "agent_run_failed" (put_run failed_run s) in
    record ended {
      entries =
          s.entries
          ++ entry run.task_id "agent_run" "failed" (numbered_text "Agent run " run.id " failed.")
              error
            ∷ [];
    }

unfoldable pub mark_failed : Store → (run_id : ℕ) → Exception → Store
unfolding mark_found
mark_failed s run_id x = mark_found s (get_run s run_id) x
