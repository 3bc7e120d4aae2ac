-- ===== src/Memory/Rules.antt =====
-- app/services/memory_evaluator.py: the rules that a candidate must pass.
use careerops_agent.Shared.{
  ℕ, String, Bool, true, false, not, ◌&&◌, ◌||◌, Option, none, some, List, [], ◌∷◌, first,
  if◌then◌else◌, is_none, ◌==◌, Eq_nat, Eq_text, Eq_option,
}
use careerops_agent.Shared.Text.{
  strip, squeeze, starts_with, remove_prefix, occurs_in, ends_with, keep_chars,
}
use careerops_agent.Tool.Rows.{Json, null, str, ToolCallRecord}
use careerops_agent.Context.Json.{get}
use careerops_agent.Context.Task.{PlannedTask}
use careerops_agent.Run.Rows.{AgentRun, RunStep}
use careerops_agent.Memory.Rows.{type_eq, MemoryScope, scope_eq, AgentMemory, MemoryDb}
use careerops_agent.Memory.Candidate.{
  MemoryCandidate, TraceRow, Evidence, tool_call_of, is_num, is_str,
}

abbrev pub min_outcome_length : ℕ
min_outcome_length = 24

abbrev pub evaluator_version : String
evaluator_version = "deterministic-v2"

-- A regular expression, and whether `re.IGNORECASE` is set.
pub record Pattern : Type 0 where
  pub expression : String
  pub ignore_case : Bool

abbrev pub secret_patterns : List Pattern
secret_patterns =
    record { expression = "\\bsk-[A-Za-z0-9_-]{12,}\\b"; ignore_case = false }
    ∷ (record {
      expression = "\\b(?:api[_ -]?key|access[_ -]?token|password|secret)\\b\\s*[:=]\\s*\\S+";
      ignore_case = true;
    })
    ∷ []

-- What the rules use of Python's texts: `re.search`, `str.casefold` and `str.isalnum`.
pub record TextLibrary : Type 0 where
  pub search : Pattern → String → Bool
  pub casefold : String → String
  pub is_alnum : ℕ → Bool

pub data Verdict : Type 0 where
  accept needs_review reject : Verdict

abbrev pub is_accept : Verdict → Bool
is_accept accept = true
is_accept _ = false

abbrev pub is_reject : Verdict → Bool
is_reject reject = true
is_reject _ = false

abbrev pub is_needs_review : Verdict → Bool
is_needs_review needs_review = true
is_needs_review _ = false

abbrev pub verdict_name : Verdict → String
verdict_name accept = "accept"
verdict_name needs_review = "needs_review"
verdict_name reject = "reject"

abbrev pub find_run : Evidence → Json → Option AgentRun
find_run seen v = first (λ r. is_num v r.id) seen.runs

-- `if value` of an optional id
abbrev is_truthy : Option ℕ → Bool
is_truthy none = false
is_truthy (some n) = not (n == 0)

abbrev run_in_task : PlannedTask → Option AgentRun → Bool
run_in_task task none = false
run_in_task task (some r) = r.task_id == task.id

pub scope_reasons_in : MemoryScope → Evidence → PlannedTask → MemoryCandidate → List String
scope_reasons_in MemoryScope.contract seen task c =
    if is_truthy c.task_id || is_truthy c.run_id then "invalid_contract_scope" ∷ [] else []
scope_reasons_in MemoryScope.task seen task c =
    if c.task_id == some task.id && is_none c.run_id then [] else "invalid_task_scope" ∷ []
scope_reasons_in MemoryScope.run seen task c =
    if is_truthy c.run_id
      && run_in_task task (first (λ r. c.run_id == some r.id) seen.runs)
      && is_none c.task_id
    then []
    else "invalid_run_scope" ∷ []
scope_reasons_in (MemoryScope.other s) seen task c = "unknown_scope_type" ∷ []

-- `_scope_reasons`
unfoldable pub scope_reasons : Evidence → PlannedTask → MemoryCandidate → List String
unfolding scope_reasons_in
scope_reasons seen task c = scope_reasons_in c.scope_type seen task c

abbrev pub is_missing : Json → Bool
is_missing null = true
is_missing _ = false

unfoldable pub missing_any : List String → Json → Bool
unfolding get
missing_any [] p = false
missing_any (f ∷ fields) p = is_missing (get f p) || missing_any fields p

unfoldable pub runtime_provenance : PlannedTask → Json → Option AgentRun → Verdict × List String
unfolding get
runtime_provenance task p none = (reject, "unknown_agent_run_provenance" ∷ [])
runtime_provenance task p (some run) =
    if not (run.task_id == task.id)
      || not (is_num (get "task_id" p) task.id)
      || not (is_str (get "provider" p) run.provider)
      || not (is_str (get "model" p) run.model)
    then (reject, "runtime_provenance_mismatch" ∷ [])
    else (accept, "provenance_verified" ∷ [])

unfoldable pub tool_provenance_found :
    Evidence
    → PlannedTask
    → (source : String) → Json
    → Option AgentRun
    → Option RunStep
    → Option ToolCallRecord
    → Verdict × List String
unfolding get tool_call_of remove_prefix
tool_provenance_found seen task source p (some run) (some step) (some call) =
    if not (run.task_id == task.id)
      || not (is_num (get "task_id" p) task.id)
      || not (step.run_id == run.id)
      || not (step.task_id == task.id)
      || not (tool_call_of seen.links step.id == some call.id)
      || not (call.task_id == task.id)
      || not (is_str (get "tool_name" p) call.tool_name)
      || not (is_str (get "tool_name" p) (remove_prefix "tool:" source))
    then (reject, "tool_provenance_mismatch" ∷ [])
    else (accept, "provenance_verified" ∷ [])
tool_provenance_found seen task source p _ _ _ = (reject, "unknown_tool_provenance" ∷ [])

abbrev runtime_fields : List String
runtime_fields = "agent_run_id" ∷ "task_id" ∷ "provider" ∷ "model" ∷ []

abbrev tool_fields : List String
tool_fields = "agent_run_id" ∷ "task_id" ∷ "agent_run_step_id" ∷ "tool_call_id" ∷ "tool_name" ∷ []

abbrev user_input_fields : List String
user_input_fields = "execution_trace_id" ∷ "task_id" ∷ "evidence_text" ∷ []

module _ (lib : TextLibrary) where
  -- `_normalized`
  unfoldable pub normalized : String → String
  normalized value = lib.casefold (strip (squeeze value))

  -- `_canonical`
  pub canonical : String → String
  unfolding normalized
  canonical value = keep_chars lib.is_alnum (normalized value)

  -- `str` of the evidence, which is a text.
  abbrev pub evidence_text : Json → String
  evidence_text (str s) = s
  evidence_text _ = ""

  unfoldable pub user_input_provenance :
      PlannedTask → Json → Option TraceRow → Verdict × List String
  unfolding get normalized
  user_input_provenance task p none = (reject, "unknown_user_input_provenance" ∷ [])
  user_input_provenance task p (some trace) =
      let evidence = normalized (evidence_text (get "evidence_text" p)) in
      if not (trace.task_id == task.id)
        || not (is_num (get "task_id" p) task.id)
        || not (trace.event_type == "user_input")
        || evidence == ""
        || not (occurs_in evidence (normalized trace.input_summary))
      then (reject, "user_input_provenance_mismatch" ∷ [])
      else (needs_review, "semantic_evaluation_required" ∷ [])

  -- `_validate_provenance`
  unfoldable pub validate_provenance :
      Evidence → PlannedTask → MemoryCandidate → Verdict × List String
  unfolding missing_any get runtime_provenance tool_provenance_found user_input_provenance
      starts_with
  validate_provenance seen task c =
      let p = c.provenance in
      if c.source == "agent_runtime"
      then if missing_any runtime_fields p
        then (reject, "missing_runtime_provenance" ∷ [])
        else runtime_provenance task p (find_run seen (get "agent_run_id" p))
      else if starts_with "tool:" c.source
      then if missing_any tool_fields p
        then (reject, "missing_tool_provenance" ∷ [])
        else tool_provenance_found seen task c.source p (find_run seen (get "agent_run_id" p))
            (first (λ s. is_num (get "agent_run_step_id" p) s.id) seen.steps)
            (first (λ t. is_num (get "tool_call_id" p) t.id) seen.tool_calls)
      else if c.source == "user_input"
      then if missing_any user_input_fields p
        then (reject, "missing_user_input_provenance" ∷ [])
        else user_input_provenance task p
            (first (λ t. is_num (get "execution_trace_id" p) t.id) seen.traces)
      else (needs_review, "untrusted_provenance_source" ∷ [])

  -- `_find_duplicate`
  unfoldable pub same_content : MemoryCandidate → AgentMemory → Bool
  unfolding normalized canonical ends_with
  same_content c m =
      normalized m.content == normalized c.content
      || ends_with (normalized c.relevance_text) (normalized m.content)
      || (not (canonical c.content == "") && canonical m.content == canonical c.content)

  unfoldable pub find_duplicate : MemoryDb → PlannedTask → MemoryCandidate → Option AgentMemory
  unfolding same_content
  find_duplicate db task c =
      first
        (λ m.
          m.goal_contract_id == task.goal_contract_id
          && type_eq m.memory_type c.memory_type
          && scope_eq m.scope_type c.scope_type
          && m.task_id == c.task_id
          && m.run_id == c.run_id
          && same_content c m)
        db.memories
