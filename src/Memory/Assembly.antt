-- ===== src/Memory/Assembly.antt =====
-- app/services/memory_runtime.py: what a step gets to read of memories and job evidence.
pub mod Shown
pub mod Examples
use careerops_agent.Shared.{
  ℕ, ◌+◌, ◌-◌, String, Bool, true, false, not, ◌&&◌, ◌||◌, Option, none, some, List, [], ◌∷◌, ◌++◌,
  map, keep, first, length, max, is_none, is_some, if◌then◌else◌, ◌==◌, Eq_nat, Eq_text, Result, ok,
  raised, value_error, Dict, lookup, or_else,
}
use careerops_agent.Tool.Rows.{Json, null, bool, num, str}
use careerops_agent.Context.Json.{array, object}
use careerops_agent.Context.Task.{PlannedTask, texts, opt_text}
use careerops_agent.Context.Budget.{estimate_tokens}
use careerops_agent.Goal.Rows.{GoalContract}
use careerops_agent.Memory.Context.{MemoryContext, contract_dict, filters_of}
use careerops_agent.Jobs.Rows.{JobDb}
use careerops_agent.Memory.Rows.{AgentMemory}
use careerops_agent.Memory.Selection.{RankedDocument, Selection, select_under_budget}
use careerops_agent.Memory.Visible.{
  is_visible, is_current, memory_document, knowledge_documents, task_query, opt_num,
}
use careerops_agent.Retrieval.Scores.{Floats, TokenLibrary}
use careerops_agent.Retrieval.Embedding.{MemoryEmbeddingProvider}
use careerops_agent.Retrieval.Hybrid.{
  RetrievalDocument, RankedRetrievalDocument, HybridRetrievalResult, rank_hybrid_documents,
  zero_usage,
}
use careerops_agent.Retrieval.Cache.{RetrievalEmbeddingCacheEntry, cached_provider}
use careerops_agent.Retrieval.Route.{RetrievalRouteDecision, choose_retrieval_route}

-- What the assembly is given: numbers, patterns, digests, what other sessions commit to the cache, the
-- token count, and the provider of embeddings, if there is one.
pub record Retrieval (F S : Type 0) : Type 0 where
  pub floats : Floats F
  pub tokens : TokenLibrary
  pub semantic_threshold : F
  pub find_identifiers : String → List String
  pub count : Json → ℕ
  pub sha256 : String → String
  pub others : List (RetrievalEmbeddingCacheEntry F) → List (RetrievalEmbeddingCacheEntry F)
  pub provider : Option (MemoryEmbeddingProvider S F)

-- The tables that the assembly reads.
pub record MemoryTables : Type 0 where
  pub contracts : List GoalContract
  pub memories : List AgentMemory
  pub jobs : JobDb

-- The limits of a call, which are not negative here.
pub record Limits : Type 0 where
  pub memory_limit : ℕ
  pub knowledge_limit : ℕ
  pub memory_token_budget : ℕ

abbrev opt_score : {F : Type 0} → (F → Json) → Option F → Json
opt_score f none = null
opt_score f (some x) = f x

module _ {F S : Type 0} (r : Retrieval F S) where
  -- The rows of the cache, and the state of the provider.
  abbrev Cached : Type 0
  Cached = List (RetrievalEmbeddingCacheEntry F) × S

  abbrev cached_by :
      Option (MemoryEmbeddingProvider S F) → Option (MemoryEmbeddingProvider Cached F)
  unfolding cached_provider
  cached_by none = none
  cached_by (some p) = some (cached_provider r.sha256 r.others p)

  pub ranked_document : RankedRetrievalDocument F → RankedDocument
  ranked_document c = record {
    key = c.document.key;
    payload = c.document.payload;
    lexical_score = r.floats.rounded c.lexical_score;
    semantic_score = opt_score r.floats.rounded c.semantic_score;
    fusion_score = r.floats.rounded c.fusion_score;
  }

  abbrev empty_result : HybridRetrievalResult F
  empty_result = record {
    candidates = [];
    method = "none";
    provider_version = none;
    usage = zero_usage;
    embedding_error = none;
  }

  abbrev rank_all :
      (query : String)
      → List (RetrievalDocument F)
      → Option (MemoryEmbeddingProvider Cached F)
      → Cached
      → Result (HybridRetrievalResult F) × Cached
  unfolding rank_hybrid_documents
  rank_all query documents provider s =
      rank_hybrid_documents r.floats r.tokens r.semantic_threshold query documents provider
        (max (length documents) 1) s

  abbrev with_memories :
      HybridRetrievalResult F
      → Result (HybridRetrievalResult F)
      → Result (HybridRetrievalResult F × HybridRetrievalResult F)
  with_memories m (raised x) = raised x
  with_memories m (ok k) = ok (m, k)

  pub then_knowledge :
      (query : String) (knowledge : List (RetrievalDocument F))
      → Option (MemoryEmbeddingProvider Cached F)
      → Result (HybridRetrievalResult F) × Cached
      → Result (HybridRetrievalResult F × HybridRetrievalResult F) × Cached
  unfolding rank_hybrid_documents
  then_knowledge query knowledge provider (raised x, s) = (raised x, s)
  then_knowledge query knowledge provider (ok m, s) =
      let (k, s') = rank_all query knowledge provider s in (with_memories m k, s')

  -- `_rank_channels`
  unfoldable pub rank_channels :
      (query : String) (memories knowledge : List (RetrievalDocument F))
      → Option (MemoryEmbeddingProvider Cached F)
      → (enabled : Bool) → Cached
      → Result (HybridRetrievalResult F × HybridRetrievalResult F) × Cached
  unfolding then_knowledge rank_hybrid_documents
  rank_channels query memories knowledge provider false s = (ok (empty_result, empty_result), s)
  rank_channels query memories knowledge provider true s =
      then_knowledge query knowledge provider (rank_all query memories provider s)

  abbrev summed : (m k : Dict ℕ) → List String → Dict ℕ
  summed m k [] = []
  summed m k (key ∷ keys) =
      (key, or_else (lookup key m) 0 + or_else (lookup key k) 0) ∷ summed m k keys

  abbrev method_of : (budget : ℕ) (m k : String) → String
  method_of budget m k =
      if budget == 0
      then "not_run_budget_zero"
      else if m == "hybrid" || k == "hybrid"
      then "hybrid"
      else if m == "lexical_fallback" || k == "lexical_fallback"
      then "lexical_fallback"
      else "lexical"

  abbrev either_error : (m k : Option String) → Option String
  either_error none k = k
  either_error (some x) k = some x

  abbrev version_of : Option (MemoryEmbeddingProvider S F) → Option String
  version_of none = none
  version_of (some p) = some p.provider_version

  module _ (contract : GoalContract) (task : PlannedTask) (run_id : Option ℕ) (limits : Limits)
      (all_memories active_memories : List AgentMemory) (knowledge_count : ℕ)
      (route : RetrievalRouteDecision) where
    abbrev context_of :
        HybridRetrievalResult F → HybridRetrievalResult F → Selection → MemoryContext
    unfolding estimate_tokens task_query contract_dict filters_of
    context_of m k v = record {
      goal_contract = contract_dict contract;
      memories = v.selected;
      knowledge = v.knowledge;
      candidate_count = length active_memories;
      knowledge_candidate_count = knowledge_count;
      excluded_expired_count = length all_memories - length active_memories;
      token_budget = limits.memory_token_budget;
      tokens_used = estimate_tokens r.count (array v.token_payloads);
      retrieval_method = method_of limits.memory_token_budget m.method k.method;
      retrieval_route = route.strategy;
      retrieval_route_reason = route.reason;
      retrieval_route_signals = route.signals;
      embedding_provider_version = version_of r.provider;
      embedding_usage =
          summed m.usage k.usage
            ("embedding_calls" ∷ "embedding_tokens" ∷ "cache_hits" ∷ "cache_misses" ∷ []);
      embedding_error = either_error m.embedding_error k.embedding_error;
      selected_scores = v.scores;
      query = task_query task;
      filters = filters_of contract.id task.id run_id;
    }

    -- `none` is the loop of the selection out of fuel.
    pub selected_context :
        HybridRetrievalResult F
        → HybridRetrievalResult F
        → Option Selection
        → Option (Result MemoryContext)
    unfolding estimate_tokens task_query contract_dict filters_of
    selected_context m k none = none
    selected_context m k (some v) = some (ok (context_of m k v))

    pub ranked_context :
        Result (HybridRetrievalResult F × HybridRetrievalResult F) → Option (Result MemoryContext)
    unfolding selected_context select_under_budget ranked_document
    ranked_context (raised x) = some (raised x)
    ranked_context (ok (m, k)) = selected_context m k (
        select_under_budget r.count limits.memory_token_budget limits.memory_limit
          limits.knowledge_limit (map ranked_document m.candidates)
          (map ranked_document k.candidates))

  abbrev unless_zero : (limit : ℕ) → List (RetrievalDocument F) → List (RetrievalDocument F)
  unless_zero limit documents = if limit == 0 then [] else documents

  abbrev routed :
      (strategy : String)
      → Option (MemoryEmbeddingProvider Cached F)
      → Option (MemoryEmbeddingProvider Cached F)
  routed strategy provider = if strategy == "hybrid" then provider else none

  -- What `assemble_memory_context` comes to: `none` is a loop out of fuel.
  abbrev pub Assembled : Type 0
  Assembled = Option (Result MemoryContext) × Cached

  module _ (now : ℕ) (tables : MemoryTables) (task : PlannedTask) (run_id : Option ℕ)
      (limits : Limits) where
    -- From the documents on.
    pub assemble_with :
        GoalContract → (knowledge : Result (List (RetrievalDocument F))) → Cached → Assembled
    unfolding ranked_context rank_channels cached_provider choose_retrieval_route is_visible
        is_current memory_document task_query
    assemble_with contract (raised x) s = (some (raised x), s)
    assemble_with contract (ok knowledge) s =
        let all_memories = keep (is_visible contract.id task.id run_id) tables.memories in
        let active_memories = keep (is_current now) all_memories in
        let query = task_query task in
        let provider = cached_by r.provider in
        let route =
          choose_retrieval_route r.find_identifiers r.tokens.find_tokens query
            (is_some r.provider) in
        let (results, s') =
          rank_channels query
            (unless_zero limits.memory_limit (map (memory_document r.floats) active_memories))
            (unless_zero limits.knowledge_limit knowledge) (routed route.strategy provider)
            (not (limits.memory_token_budget == 0)) s in
        (
          ranked_context contract task run_id limits all_memories active_memories (length knowledge)
              route results,
          s',
        )

    pub assemble_for : Option GoalContract → Cached → Assembled
    unfolding assemble_with knowledge_documents
    assemble_for none s = (some (value_error "task goal contract no longer exists"), s)
    assemble_for (some contract) s =
        assemble_with contract (knowledge_documents r.floats tables.jobs tables.jobs.requirements) s

    -- `assemble_memory_context`
    unfoldable pub assemble_memory_context : Cached → Assembled
    unfolding assemble_for
    assemble_memory_context s =
        assemble_for (first (λ c. c.id == task.goal_contract_id) tables.contracts) s
