-- ===== src/Memory/Assembly/Shown.antt =====
-- app/services/memory_runtime.py: which memories a step is shown.
use mathlib.Core.List.{Perm}
use careerops_agent.Shared.{
  ◌++◌, ℕ, ◌≤◌, ◌<◌, ◌≡◌, refl, sym, subst, String, Bool, true, false, not, ◌&&◌, ◌||◌, &&_true,
  Option, none, some, some_inj, List, [], ◌∷◌, map, keep, All, keep-All, keep_sound, map-All,
  All-both, All-weaken, first, first_sound, length, max, is_some, ◌==◌, ==_eq, Eq_nat, Eq_text,
  Eq_option, Result, ok, raised, arith, Bool-cases, inl, inr, ltb→lt,
}
use careerops_agent.Tool.Rows.{Json}
use careerops_agent.Context.Json.{array}
use careerops_agent.Context.Budget.{estimate_tokens}
use careerops_agent.Context.Task.{PlannedTask}
use careerops_agent.Goal.Rows.{GoalContract}
use careerops_agent.Memory.Rows.{AgentMemory, MemoryScope, MemoryStatus, is_retired, scope_eq}
use careerops_agent.Memory.Context.{MemoryContext}
use careerops_agent.Memory.Visible.{
  is_visible, is_current, later_than, memory_payload, memory_document, knowledge_documents,
  task_query,
}
use careerops_agent.Memory.Selection.Bounded.{select_under_budget-IsBounded}
use careerops_agent.Memory.Selection.Chosen.{select_under_budget-chosen}
use careerops_agent.Memory.Assembly.{
  Retrieval, MemoryTables, Limits, Cached, ranked_document, rank_channels, then_knowledge,
  selected_context, ranked_context, assemble_with, assemble_for, assemble_memory_context,
  unless_zero, rank_all,
}
use careerops_agent.Retrieval.Embedding.{MemoryEmbeddingProvider}
use careerops_agent.Retrieval.Route.{RetrievalRouteDecision, choose_retrieval_route}
use careerops_agent.Retrieval.Hybrid.{
  RetrievalDocument, HybridRetrievalResult, rank_hybrid_documents,
}
use careerops_agent.Retrieval.Hybrid.Found.{rank_hybrid_documents-Ranks}

-- What the texts of a context cost together, in the order in which they were selected.
abbrev pub IsCostOf : (count : Json → ℕ) (tokens : ℕ) (memories knowledge : List Json) → Type 0
IsCostOf count tokens memories knowledge =
    (payloads : List Json) × Perm payloads (memories ++ knowledge)
    × (tokens ≡ estimate_tokens count (array payloads))

-- A scope that a run of a task sees.
abbrev InScope : (task_id : ℕ) (run_id : Option ℕ) → AgentMemory → MemoryScope → Type 0
InScope task_id run_id m MemoryScope.contract = Unit
InScope task_id run_id m MemoryScope.task = m.task_id ≡ some task_id
InScope task_id run_id m MemoryScope.run = (m.run_id ≡ run_id) × (is_some run_id ≡ true)
InScope task_id run_id m (MemoryScope.other s) = ⊥

-- The text of a memory that is active, of the contract, in scope and not expired.
abbrev pub IsShown :
    (table : AgentMemory → Type 0) (now contract_id task_id : ℕ) (run_id : Option ℕ) → Json → Type 0
IsShown table now contract_id task_id run_id payload =
    (m : AgentMemory) × (payload ≡ memory_payload m)
    × table m
    × (m.goal_contract_id ≡ contract_id)
    × (m.status ≡ MemoryStatus.active)
    × InScope task_id run_id m m.scope_type
    × ((t : ℕ) → m.expires_at ≡ some t → now < t)

not_retired :
    (status : MemoryStatus) → not (is_retired status) ≡ true → status ≡ MemoryStatus.active
not_retired MemoryStatus.active h = refl
not_retired MemoryStatus.retired h = cc

in_scope :
    (task_id : ℕ) (run_id : Option ℕ) (m : AgentMemory) (scope : MemoryScope)
    → (scope_eq scope MemoryScope.contract
        || (scope_eq scope MemoryScope.task && m.task_id == some task_id)
        || (is_some run_id && scope_eq scope MemoryScope.run && m.run_id == run_id))
      ≡ true
    → InScope task_id run_id m scope
in_scope task_id run_id m MemoryScope.contract h = tt
in_scope task_id run_id m MemoryScope.task h = ==_eq m.task_id (some task_id) (ground (arith, h))
in_scope task_id run_id m MemoryScope.run h =
    (==_eq m.run_id run_id (ground (arith, h)), ground (arith, h))
in_scope task_id run_id m (MemoryScope.other s) h = ground (arith, h)

current_sound :
    (now : ℕ) (expires : Option ℕ)
    → later_than now expires ≡ true
    → (t : ℕ) → expires ≡ some t
    → now < t
current_sound now none h t e = cc
current_sound now (some u) h t e = omega (arith, ltb→lt now u h, some_inj e)

visible_sound :
    (contract_id task_id : ℕ) (run_id : Option ℕ) (m : AgentMemory)
    → is_visible contract_id task_id run_id m ≡ true
    → (m.goal_contract_id ≡ contract_id)
      × (m.status ≡ MemoryStatus.active)
      × InScope task_id run_id m m.scope_type
unfolding is_visible
visible_sound contract_id task_id run_id m h =
    let (owned, scoped) = &&_true _ _ h in
    let (same, active) = &&_true _ _ owned in
    (
      ==_eq m.goal_contract_id contract_id same,
      not_retired m.status active,
      in_scope task_id run_id m m.scope_type scoped,
    )

shown :
    (P : AgentMemory → Type 0) (now contract_id task_id : ℕ) (run_id : Option ℕ) (m : AgentMemory)
    → (P m × (is_visible contract_id task_id run_id m ≡ true)) × (is_current now m ≡ true)
    → IsShown P now contract_id task_id run_id (memory_payload m)
unfolding is_current
shown P now contract_id task_id run_id m ((p, visible), current) =
    let (same, active, scoped) = visible_sound contract_id task_id run_id m visible in
    (m, refl, p, same, active, scoped, current_sound now m.expires_at current)

module _ {F S : Type 0} (r : Retrieval F S) (P : AgentMemory → Type 0) (now contract_id : ℕ)
    (task : PlannedTask) (run_id : Option ℕ) (limits : Limits) where
  abbrev Shows : Json → Type 0
  Shows = IsShown P now contract_id task.id run_id

  abbrev Documents : List (RetrievalDocument F) → Type 0
  Documents = All (λ d. Shows d.payload)

  Documents-Shown :
      (memories : List AgentMemory)
      → All P memories
      → Documents (
          map
            (memory_document r.floats)
            (keep (is_current now) (keep (is_visible contract_id task.id run_id) memories)))
  unfolding memory_document
  Documents-Shown memories u =
      let visible = keep (is_visible contract_id task.id run_id) memories in
      map-All (λ d. Shows d.payload) (memory_document r.floats) (keep (is_current now) visible)
        (All-weaken _ (λ m. Shows (memory_payload m)) (shown P now contract_id task.id run_id) _
          (All-both _ _ (keep (is_current now) visible)
            (keep-All _ (is_current now) visible (
              All-both P (λ m. is_visible contract_id task.id run_id m ≡ true) visible
                (keep-All P _ memories u) (keep_sound _ memories)))
            (keep_sound _ visible)))

  unless_zero-Documents :
      (limit : ℕ) (documents : List (RetrievalDocument F))
      → Documents documents
      → Documents (unless_zero r limit documents)
  unless_zero-Documents limit documents u = elim (Bool-cases (limit == 0)) [
    | inl t ↦ rw t tt
    | inr f ↦ rw f u
  ]

  -- Rankings of both channels, with memories that may be shown.
  abbrev Ranked : Result (HybridRetrievalResult F × HybridRetrievalResult F) → Type 0
  Ranked results =
      (m : HybridRetrievalResult F) × (k : HybridRetrievalResult F) × (results ≡ ok (m, k))
      × All (λ c. Shows c.document.payload) m.candidates

  rank_all_ok :
      (query : String) (documents : List (RetrievalDocument F))
      (provider : Option (MemoryEmbeddingProvider (Cached r) F)) (s : Cached r)
      (Q : RetrievalDocument F → Type 0)
      → All Q documents
      → (found : HybridRetrievalResult F) × ((rank_all r query documents provider s).0 ≡ ok found)
        × All (λ c. Q c.document) found.candidates
  unfolding rank_all rank_hybrid_documents
  rank_all_ok query documents provider s Q u =
      let (found, returned, among, once, few) =
        rank_hybrid_documents-Ranks r.floats r.tokens r.semantic_threshold Q query documents
          provider (max (length documents) 1) s (omega arith) u in
      (found, returned, among)

  abbrev Answered : Result (HybridRetrievalResult F) → Type 0
  Answered (raised x) = Unit
  Answered (ok m) = All (λ c. Shows c.document.payload) m.candidates

  anything : (documents : List (RetrievalDocument F)) → All (λ d. Unit {0}) documents
  anything [] = tt
  anything (d ∷ documents) = (tt, anything documents)

  then_knowledge-Ranked :
      (query : String) (knowledge : List (RetrievalDocument F))
      (provider : Option (MemoryEmbeddingProvider (Cached r) F))
      (ranked : Result (HybridRetrievalResult F) × Cached r) (m : HybridRetrievalResult F)
      → ranked.0 ≡ ok m
      → All (λ c. Shows c.document.payload) m.candidates
      → Ranked (then_knowledge r query knowledge provider ranked).0
  unfolding then_knowledge
  then_knowledge-Ranked query knowledge provider (raised x, s) m h u = cc
  then_knowledge-Ranked query knowledge provider (ok m', s) m h u =
      let (k, returned, among) =
        rank_all_ok query knowledge provider s (λ d. Unit) (anything knowledge) in
      rw returned (m', k, refl, subst Answered (sym h) u)

  rank_channels-Ranked :
      (query : String) (memories knowledge : List (RetrievalDocument F))
      (provider : Option (MemoryEmbeddingProvider (Cached r) F)) (enabled : Bool) (s : Cached r)
      → Documents memories
      → Ranked (rank_channels r query memories knowledge provider enabled s).0
  unfolding rank_channels
  rank_channels-Ranked query memories knowledge provider false s u = (_, _, refl, tt)
  rank_channels-Ranked query memories knowledge provider true s u =
      let (m, returned, among) = rank_all_ok query memories provider s (λ d. Shows d.payload) u in
      then_knowledge-Ranked query knowledge provider (rank_all r query memories provider s) m
        returned among

  -- A context within its budget and limits, with memories that may be shown.
  abbrev Assembles : Option (Result MemoryContext) → Type 0
  Assembles result =
      (c : MemoryContext) × (result ≡ some (ok c))
      × All Shows c.memories
      × IsCostOf r.count c.tokens_used c.memories c.knowledge
      × (c.tokens_used ≤ limits.memory_token_budget)
      × (length c.memories ≤ limits.memory_limit)
      × (length c.knowledge ≤ limits.knowledge_limit)

  ranked_context-Assembles :
      (contract : GoalContract) (all_memories active_memories : List AgentMemory)
      (knowledge_count : ℕ) (route : RetrievalRouteDecision)
      (results : Result (HybridRetrievalResult F × HybridRetrievalResult F))
      → Ranked results
      → Assembles (
          ranked_context r contract task run_id limits all_memories active_memories knowledge_count
            route results)
  unfolding ranked_context selected_context ranked_document
  ranked_context-Assembles contract all_memories active_memories knowledge_count route results
        (m, k, ranked, u) =
      let (v, selected, fits, charged, few, few_knowledge) =
        select_under_budget-IsBounded r.count limits.memory_token_budget limits.memory_limit
          limits.knowledge_limit (map (ranked_document r) m.candidates)
          (map (ranked_document r) k.candidates) in
      let chosen =
        select_under_budget-chosen r.count limits.memory_token_budget limits.memory_limit
          limits.knowledge_limit Shows (map (ranked_document r) m.candidates)
          (map (ranked_document r) k.candidates)
          (map-All (λ c. Shows c.payload) (ranked_document r) m.candidates u) selected in
      rw (ranked, selected)
        (_, refl, chosen, (v.token_payloads, charged, refl), fits, few, few_knowledge)

module _ {F S : Type 0} (r : Retrieval F S) where
  assemble_with-Assembles :
      (now : ℕ) (tables : MemoryTables) (task : PlannedTask) (run_id : Option ℕ) (limits : Limits)
      (s : Cached r) (P : AgentMemory → Type 0) (contract : GoalContract)
      (knowledge : List (RetrievalDocument F))
      → All P tables.memories
      → Assembles r P now contract.id task run_id limits
          (assemble_with r now tables task run_id limits contract (ok knowledge) s).0
  unfolding assemble_with
  assemble_with-Assembles now tables task run_id limits s P contract knowledge u =
      let all_memories = keep (is_visible contract.id task.id run_id) tables.memories in
      ranked_context-Assembles r P now contract.id task run_id limits contract all_memories
        (keep (is_current now) all_memories) (length knowledge)
        (choose_retrieval_route r.find_identifiers r.tokens.find_tokens (task_query task)
          (is_some r.provider))
        _
        (rank_channels-Ranked r P now contract.id task run_id limits _ _
          (unless_zero r limits.knowledge_limit knowledge) _ _ s
          (unless_zero-Documents r P now contract.id task run_id limits limits.memory_limit _
            (Documents-Shown r P now contract.id task run_id limits tables.memories u)))

  -- If the contract of a task exists and each requirement has its job and its skill, the assembly
  -- returns a context within both limits, whatever the provider of embeddings does; the tokens that
  -- it reports are the estimate of all its memories and evidence together and within the budget; and
  -- each memory in it is a stored one of that contract that is active and not expired, and whose
  -- scope is the contract, this task or this run.
  pub assemble_memory_context-Shows :
      (now : ℕ) (tables : MemoryTables) (task : PlannedTask) (run_id : Option ℕ) (limits : Limits)
      (s : Cached r) (P : AgentMemory → Type 0) {contract : GoalContract}
      {knowledge : List (RetrievalDocument F)}
      → All P tables.memories
      → first (λ c. c.id == task.goal_contract_id) tables.contracts ≡ some contract
      → knowledge_documents r.floats tables.jobs tables.jobs.requirements ≡ ok knowledge
      → (c : MemoryContext) × ((assemble_memory_context r now tables task run_id limits s).0
          ≡ some (ok c))
        × All (IsShown P now task.goal_contract_id task.id run_id) c.memories
        × IsCostOf r.count c.tokens_used c.memories c.knowledge
        × (c.tokens_used ≤ limits.memory_token_budget)
        × (length c.memories ≤ limits.memory_limit)
        × (length c.knowledge ≤ limits.knowledge_limit)
  unfolding assemble_memory_context assemble_for
  assemble_memory_context-Shows now tables task run_id limits s P {contract} {knowledge} u found
        evidence =
      let same = ==_eq contract.id task.goal_contract_id (first_sound _ tables.contracts found) in
      rw (found, evidence)
        (subst
          (λ id.
            Assembles r P now id task run_id limits
              (assemble_with r now tables task run_id limits contract (ok knowledge) s).0)
          same (assemble_with-Assembles now tables task run_id limits s P contract knowledge u))
