-- ===== src/Retrieval/Hybrid.antt =====
-- app/services/hybrid_retrieval.py: documents, ranked by the words that they share with a query, by
-- their vectors, and by what a policy says of them.
pub mod Found
pub mod Fallback
use careerops_agent.Shared.{
  ℕ, suc, ◌+◌, String, Bool, true, false, not, ◌||◌, Option, none, some, List, [], ◌∷◌, ◌++◌, map,
  keep, first, take, length, ltb, if◌then◌else◌, is_some, ◌==◌, Eq_nat, Eq_text, Exception, Result,
  ok, raised, value_error, Dict, lookup, put, sorted, text_below, or_else,
}
use careerops_agent.Tool.Rows.{Json}
use careerops_agent.Retrieval.Scores.{Floats, TokenLibrary, tokens, jaccard, cosine}
use careerops_agent.Retrieval.Embedding.{EmbeddingBatch, MemoryEmbeddingProvider}

abbrev pub rrf_k : ℕ
rrf_k = 60

pub record RetrievalDocument (F : Type 0) : Type 0 where
  pub key : String
  pub source_type : String
  pub content : String
  pub payload : Json
  pub prior_score : F

pub record RankedRetrievalDocument (F : Type 0) : Type 0 where
  pub document : RetrievalDocument F
  pub lexical_score : F
  pub semantic_score : Option F
  pub fusion_score : F

pub record HybridRetrievalResult (F : Type 0) : Type 0 where
  pub candidates : List (RankedRetrievalDocument F)
  pub method : String
  pub provider_version : Option String
  pub usage : Dict ℕ
  pub embedding_error : Option String

-- The keys of a dictionary whose values are all 0.
abbrev pub zero_usage : Dict ℕ
zero_usage =
    ("embedding_calls", 0) ∷ ("embedding_tokens", 0) ∷ ("cache_hits", 0) ∷ ("cache_misses", 0) ∷ []

abbrev pub nothing_ranked : {F : Type 0} → HybridRetrievalResult F
nothing_ranked = record {
  candidates = [];
  method = "none";
  provider_version = none;
  usage = zero_usage;
  embedding_error = none;
}

-- What the semantic part sets: the scores, the ranking, the usage and the error.
pub record Semantic (F : Type 0) : Type 0 where
  pub scores : Dict F
  pub rank : List String
  pub usage : Dict ℕ
  pub error : Option String

abbrev pub not_semantic : {F : Type 0} → Option String → Semantic F
not_semantic error = record { scores = []; rank = []; usage = zero_usage; error = error }

module _ {F : Type 0} (fl : Floats F) (t : TokenLibrary) (semantic_threshold : F) where
  -- The score of a document, which is in the dictionary.
  abbrev pub score_in : Dict F → RetrievalDocument F → F
  score_in scores d = or_else (lookup d.key scores) (fl.of_nat 0)

  -- `key=lambda item: (-score, item.key)`
  abbrev better : (score : RetrievalDocument F → F) (d e : RetrievalDocument F) → Bool
  better score d e =
      if fl.same (score d) (score e) then text_below d.key e.key else fl.below (score e) (score d)

  -- The keys of the documents that pass a test, best first.
  pub ranking :
      (score : RetrievalDocument F → F) (counts : F → Bool)
      → List (RetrievalDocument F)
      → List String
  ranking score counts documents =
      map (λ d. d.key) (keep (λ d. counts (score d)) (sorted (better score) documents))

  abbrev positive : F → Bool
  positive x = fl.below (fl.of_nat 0) x

  pub lexical_scores : (query : String) → List (RetrievalDocument F) → Dict F → Dict F
  unfolding tokens jaccard
  lexical_scores query [] scores = scores
  lexical_scores query (d ∷ documents) scores =
      lexical_scores query documents
        (put d.key (jaccard fl (tokens t query) (tokens t d.content)) scores)

  -- `_cosine` of the query's vector with that of each document.
  pub semantic_scores :
      (query_vector : List F)
      → List (RetrievalDocument F)
      → List (List F)
      → Dict F
      → Result (Dict F)
  unfolding cosine
  semantic_scores q (d ∷ documents) (v ∷ vectors) scores = elim (cosine fl q v) [
    | raised x ↦ raised x
    | ok score ↦ semantic_scores q documents vectors (put d.key score scores)
  ]
  semantic_scores q documents vectors scores = ok scores

  abbrev semantic_of : List (RetrievalDocument F) → (usage : Dict ℕ) → Result (Dict F) → Semantic F
  unfolding ranking
  semantic_of documents usage (raised x) = not_semantic (some x.kind)
  semantic_of documents usage (ok scores) = record {
    scores = scores;
    rank = ranking (score_in scores) (λ x. not (fl.below x semantic_threshold)) documents;
    usage = usage;
    error = none;
  }

  pub read_vectors : List (RetrievalDocument F) → (usage : Dict ℕ) → List (List F) → Semantic F
  unfolding semantic_scores ranking
  read_vectors documents usage [] = not_semantic (some "ValueError")
  read_vectors documents usage (q ∷ vectors) =
      if length vectors == length documents
      then semantic_of documents usage (semantic_scores q documents vectors [])
      else not_semantic (some "ValueError")

  -- The `try` block after `embed`.
  pub read_batch : List (RetrievalDocument F) → Result (EmbeddingBatch F) → Semantic F
  unfolding read_vectors
  read_batch documents (raised x) = not_semantic (some x.kind)
  read_batch documents (ok batch) = read_vectors documents batch.usage batch.vectors

  -- One ranking's part of the loop that fuses them.
  pub fuse : (position : ℕ) → List String → Dict F → Dict F
  fuse position [] fused = fused
  fuse position (key ∷ keys) fused =
      let share = fl.over (fl.of_nat 1) (fl.of_nat (rrf_k + position)) in
      fuse (suc position) keys
        (put key (fl.plus (or_else (lookup key fused) (fl.of_nat 0)) share) fused)

  -- `by_key[key]`, which is the last document with the key.
  pub by_key : List (RetrievalDocument F) → String → Option (RetrievalDocument F)
  by_key [] key = none
  by_key (d ∷ documents) key =
      let later = by_key documents key in
      if is_some later then later else if d.key == key then some d else none

  abbrev better_fused : (x y : String × F) → Bool
  better_fused x y = if fl.same x.1 y.1 then text_below x.0 y.0 else fl.below y.1 x.1

  abbrev ranked_as :
      (lexical semantic : Dict F) → String × F → RetrievalDocument F → RankedRetrievalDocument F
  ranked_as lexical semantic (key, score) d = record {
    document = d;
    lexical_score = or_else (lookup key lexical) (fl.of_nat 0);
    semantic_score = lookup key semantic;
    fusion_score = score;
  }

  pub add_candidate :
      (lexical semantic : Dict F)
      → String × F
      → Option (RetrievalDocument F)
      → Option (List (RankedRetrievalDocument F))
      → Option (List (RankedRetrievalDocument F))
  add_candidate lexical semantic x (some d) (some rest) =
      some (ranked_as lexical semantic x d ∷ rest)
  add_candidate lexical semantic x d rest = none

  -- The candidates: `none` is a missing key.
  pub gather :
      List (RetrievalDocument F)
      → (lexical semantic : Dict F) → List (String × F)
      → Option (List (RankedRetrievalDocument F))
  unfolding by_key add_candidate
  gather documents lexical semantic [] = some []
  gather documents lexical semantic (x ∷ ranked) =
      add_candidate lexical semantic x (by_key documents x.0)
        (gather documents lexical semantic ranked)

  pub fused_scores : (lexical : Dict F) → Semantic F → List (RetrievalDocument F) → Dict F
  unfolding ranking fuse
  fused_scores lexical semantic documents =
      let lexical_rank = ranking (score_in lexical) positive documents in
      let prior_rank = ranking (λ d. d.prior_score) positive documents in
      fuse 1 prior_rank (fuse 1 semantic.rank (fuse 1 lexical_rank []))

  abbrev method_of : (version : Option String) (error : Option String) → String
  method_of version (some x) = "lexical_fallback"
  method_of (some v) none = "hybrid"
  method_of none none = "lexical"

  abbrev result_of :
      (version : Option String)
      → Semantic F
      → Option (List (RankedRetrievalDocument F))
      → Result (HybridRetrievalResult F)
  result_of version semantic none = raised (record { kind = "KeyError"; text = "" })
  result_of version semantic (some candidates) = ok (record {
    candidates = candidates;
    method = method_of version semantic.error;
    provider_version = version;
    usage = semantic.usage;
    embedding_error = semantic.error;
  })

  -- From the semantic part on.
  pub rank_with :
      (query : String)
      → List (RetrievalDocument F)
      → (limit : ℕ) (version : Option String) → Semantic F
      → Result (HybridRetrievalResult F)
  unfolding lexical_scores fused_scores gather
  rank_with query documents limit version semantic =
      let lexical = lexical_scores query documents [] in
      let ranked = take limit (sorted better_fused (fused_scores lexical semantic documents)) in
      result_of version semantic (gather documents lexical semantic.scores ranked)

  module _ {S : Type 0} where
    pub rank_documents :
        (query : String)
        → List (RetrievalDocument F)
        → Option (MemoryEmbeddingProvider S F)
        → (limit : ℕ) → S
        → Result (HybridRetrievalResult F) × S
    unfolding rank_with read_batch
    rank_documents query documents none limit s =
        (rank_with query documents limit none (not_semantic none), s)
    rank_documents query documents (some provider) limit s =
        let (batch, s') = provider.embed s (query ∷ map (λ d. d.content) documents) in
        (
          rank_with query documents limit (some provider.provider_version)
              (read_batch documents batch),
          s',
        )

    -- `rank_hybrid_documents`
    unfoldable pub rank_hybrid_documents :
        (query : String)
        → List (RetrievalDocument F)
        → Option (MemoryEmbeddingProvider S F)
        → (limit : ℕ) → S
        → Result (HybridRetrievalResult F) × S
    unfolding rank_documents
    rank_hybrid_documents query documents provider limit s =
        if ltb limit 1
        then (value_error "retrieval limit must be positive", s)
        else if length documents == 0
        then (ok nothing_ranked, s)
        else rank_documents query documents provider limit s
