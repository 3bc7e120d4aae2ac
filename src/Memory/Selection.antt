-- ===== src/Memory/Selection.antt =====
-- app/services/memory_runtime.py: what a step reads of ranked memories and ranked job evidence, and
-- the scope that a memory may have.
pub mod Bounded
pub mod Chosen
pub mod Examples
use careerops_agent.Shared.{
  ℕ, zero, suc, ◌+◌, String, Bool, true, false, not, ◌&&◌, ◌||◌, Option, none, some, List, [], ◌∷◌,
  ◌++◌, length, ltb, leb, first, is_some, is_none, if◌then◌else◌, ◌==◌, Eq_nat, Eq_option,
}
use careerops_agent.Tool.Rows.{Json, str}
use careerops_agent.Context.Json.{array, object}
use careerops_agent.Context.Budget.{estimate_tokens}
use careerops_agent.Context.Task.{PlannedTask}
use careerops_agent.Run.Rows.{AgentRun}
use careerops_agent.Memory.Rows.{MemoryType, MemoryScope, is_working}

-- A ranked document, best first, with its rounded scores.
pub record RankedDocument : Type 0 where
  pub key : String
  pub payload : Json
  pub lexical_score : Json
  pub semantic_score : Json
  pub fusion_score : Json

-- What the result says of the scores of a selected document.
abbrev pub score_entry : (channel : String) → RankedDocument → Json
unfolding object
score_entry channel c = object (
    ("key", str c.key)
    ∷ ("channel", str channel)
    ∷ ("lexical_score", c.lexical_score)
    ∷ ("semantic_score", c.semantic_score)
    ∷ ("fusion_score", c.fusion_score)
    ∷ [])

-- The variables of the loop of `_select_under_budget`, with the candidates from the positions on.
pub record Selection : Type 0 where
  pub memories_left : List RankedDocument
  pub knowledge_left : List RankedDocument
  pub selected : List Json
  pub knowledge : List Json
  pub token_payloads : List Json
  pub scores : List Json

-- Whether a pass has progressed, and the variables after it.
abbrev pub SelectionPass : Type 0
SelectionPass = Bool × Selection

abbrev pub untouched : (memory_candidates knowledge_candidates : List RankedDocument) → Selection
untouched memory_candidates knowledge_candidates = record {
  memories_left = memory_candidates;
  knowledge_left = knowledge_candidates;
  selected = [];
  knowledge = [];
  token_payloads = [];
  scores = [];
}

module _ (count : Json → ℕ) (token_budget memory_limit knowledge_limit : ℕ) where
  -- The first candidate that fits beside the payloads, and those after it. The others are skipped.
  pub first_affordable :
      (payloads : List Json) → List RankedDocument → Option RankedDocument × List RankedDocument
  unfolding estimate_tokens
  first_affordable payloads [] = (none, [])
  first_affordable payloads (c ∷ candidates) =
      let later = first_affordable payloads candidates in
      if leb (estimate_tokens count (array (payloads ++ c.payload ∷ []))) token_budget
      then (some c, candidates)
      else later

  pub add_memory : Selection → Option RankedDocument × List RankedDocument → SelectionPass
  add_memory v (none, left) = (false, record v { memories_left = left })
  add_memory v (some c, left) = (
    true,
    record v {
      memories_left = left;
      selected = v.selected ++ c.payload ∷ [];
      token_payloads = v.token_payloads ++ c.payload ∷ [];
      scores = v.scores ++ score_entry "memory" c ∷ [];
    },
  )

  pub add_knowledge : Selection → Option RankedDocument × List RankedDocument → SelectionPass
  add_knowledge v (none, left) = (false, record v { knowledge_left = left })
  add_knowledge v (some c, left) = (
    true,
    record v {
      knowledge_left = left;
      knowledge = v.knowledge ++ c.payload ∷ [];
      token_payloads = v.token_payloads ++ c.payload ∷ [];
      scores = v.scores ++ score_entry "knowledge" c ∷ [];
    },
  )

  -- The inner `while` of each channel.
  pub pick_memory : Selection → SelectionPass
  unfolding first_affordable add_memory
  pick_memory v =
      if ltb (length v.selected) memory_limit
      then add_memory v (first_affordable v.token_payloads v.memories_left)
      else (false, v)

  pub pick_knowledge : Selection → SelectionPass
  unfolding first_affordable add_knowledge
  pick_knowledge v =
      if ltb (length v.knowledge) knowledge_limit
      then add_knowledge v (first_affordable v.token_payloads v.knowledge_left)
      else (false, v)

  pub pick_both : Selection → SelectionPass
  unfolding pick_memory pick_knowledge
  pick_both v =
      let (progressed, v') = pick_memory v in
      let (progressed', v'') = pick_knowledge v' in (progressed || progressed', v'')

  -- The `while True` loop, with fuel.
  pub select_loop : ℕ → Selection → Option Selection
  unfolding pick_both
  select_loop zero v = none
  select_loop (suc fuel) v =
      let later = select_loop fuel (pick_both v).1 in
      if (pick_both v).0 then later else some (pick_both v).1

  -- `_select_under_budget`. A pass that progresses uses up a candidate.
  unfoldable pub select_under_budget :
      (memory_candidates knowledge_candidates : List RankedDocument) → Option Selection
  unfolding select_loop
  select_under_budget memory_candidates knowledge_candidates =
      select_loop (suc (length memory_candidates + length knowledge_candidates))
        (untouched memory_candidates knowledge_candidates)

abbrev in_contract : (goal_contract_id : ℕ) → Option PlannedTask → Bool
in_contract goal_contract_id none = false
in_contract goal_contract_id (some t) = t.goal_contract_id == goal_contract_id

abbrev task_of_run : List PlannedTask → Option AgentRun → Option PlannedTask
task_of_run tasks none = none
task_of_run tasks (some r) = first (λ t. t.id == r.task_id) tasks

abbrev id_of_task : Option PlannedTask → Option ℕ
id_of_task none = none
id_of_task (some t) = some t.id

-- `resolve_memory_scope`: the scope's task and run, or `none` for a `ValueError`.
unfoldable pub resolve_memory_scope :
    List PlannedTask
    → List AgentRun
    → (goal_contract_id : ℕ) → MemoryType
    → MemoryScope
    → (task_id run_id : Option ℕ) → Option (Option ℕ × Option ℕ)
resolve_memory_scope tasks runs contract type MemoryScope.contract task_id run_id =
    if is_working type || is_some task_id || is_some run_id then none else some (none, none)
resolve_memory_scope tasks runs contract type MemoryScope.task task_id run_id =
    let task = first (λ t. task_id == some t.id) tasks in
    if is_none task_id || is_some run_id || not (in_contract contract task)
    then none
    else some (id_of_task task, none)
resolve_memory_scope tasks runs contract type MemoryScope.run task_id run_id =
    let run = first (λ r. run_id == some r.id) runs in
    let task = task_of_run tasks run in
    if not (is_working type)
      || is_none run_id
      || not (in_contract contract task)
      || (is_some task_id && not (task_id == id_of_task task))
    then none
    else some (id_of_task task, run_id)
resolve_memory_scope tasks runs contract type (MemoryScope.other s) task_id run_id = none
