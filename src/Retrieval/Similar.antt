-- ===== src/Retrieval/Similar.antt =====
-- app/services/memory_similarity.py: the memories that are like a candidate for memory.
pub mod Among
use careerops_agent.Shared.{
  ℕ, String, Bool, not, Option, none, some, List, [], ◌∷◌, map, keep, take, sorted, length, ltb,
  if◌then◌else◌, ◌==◌, Eq_nat, Result, ok, raised, value_error, Dict,
}
use careerops_agent.Memory.Rows.{AgentMemory}
use careerops_agent.Retrieval.Scores.{Floats, TokenLibrary, tokens, jaccard, cosine}
use careerops_agent.Retrieval.Embedding.{EmbeddingBatch, MemoryEmbeddingProvider}

pub record SimilarityCandidate (F : Type 0) : Type 0 where
  pub memory : AgentMemory
  pub score : F

pub record SimilaritySearchResult (F : Type 0) : Type 0 where
  pub candidates : List (SimilarityCandidate F)
  pub method : String
  pub provider_version : Option String
  pub usage : Dict ℕ

abbrev pub no_embedding_usage : Dict ℕ
no_embedding_usage = ("embedding_calls", 0) ∷ ("embedding_tokens", 0) ∷ []

module _ {F : Type 0} (fl : Floats F) (t : TokenLibrary) (embedding_candidate_threshold : F) where
  abbrev pub nearer : (x y : SimilarityCandidate F) → Bool
  nearer x y =
      if fl.same x.score y.score then ltb x.memory.id y.memory.id else fl.below y.score x.score

  -- The candidates that pass a test, best first, up to the limit.
  pub best :
      (counts : F → Bool) (limit : ℕ) → List (SimilarityCandidate F) → List (SimilarityCandidate F)
  best counts limit candidates = take limit (keep (λ c. counts c.score) (sorted nearer candidates))

  abbrev lexical_candidate : (content : String) → AgentMemory → SimilarityCandidate F
  unfolding tokens jaccard
  lexical_candidate content m = record {
    memory = m;
    score = jaccard fl (tokens t content) (tokens t m.content);
  }

  abbrev and_scored :
      AgentMemory
      → Result F
      → Result (List (SimilarityCandidate F))
      → Result (List (SimilarityCandidate F))
  and_scored m (raised x) rest = raised x
  and_scored m (ok score) (raised x) = raised x
  and_scored m (ok score) (ok rest) = ok (record { memory = m; score = score } ∷ rest)

  pub vector_candidates :
      (candidate_vector : List F)
      → List AgentMemory
      → List (List F)
      → Result (List (SimilarityCandidate F))
  unfolding cosine
  vector_candidates q (m ∷ memories) (v ∷ vectors) =
      and_scored m (cosine fl q v) (vector_candidates q memories vectors)
  vector_candidates q memories vectors = ok []

  abbrev embedding_result :
      (limit : ℕ) (version : String) (usage : Dict ℕ)
      → Result (List (SimilarityCandidate F))
      → Result (SimilaritySearchResult F)
  unfolding best
  embedding_result limit version usage (raised x) = raised x
  embedding_result limit version usage (ok candidates) = ok (record {
    candidates = best (λ x. not (fl.below x embedding_candidate_threshold)) limit candidates;
    method = "embedding";
    provider_version = some version;
    usage = usage;
  })

  abbrev wrong_number : Result (SimilaritySearchResult F)
  wrong_number = value_error "embedding provider returned the wrong number of vectors"

  pub search_vectors :
      List AgentMemory
      → (limit : ℕ) (version : String) (usage : Dict ℕ) → List (List F)
      → Result (SimilaritySearchResult F)
  unfolding vector_candidates best
  search_vectors memories limit version usage [] = wrong_number
  search_vectors memories limit version usage (q ∷ vectors) =
      if length vectors == length memories
      then embedding_result limit version usage (vector_candidates q memories vectors)
      else wrong_number

  pub search_batch :
      List AgentMemory → (limit : ℕ) → Result (EmbeddingBatch F) → Result (SimilaritySearchResult F)
  unfolding search_vectors
  search_batch memories limit (raised x) = raised x
  search_batch memories limit (ok batch) =
      search_vectors memories limit batch.provider_version batch.usage batch.vectors

  module _ {S : Type 0} where
    pub search_with :
        (content : String)
        → List AgentMemory
        → Option (MemoryEmbeddingProvider S F)
        → (limit : ℕ) → S
        → Result (SimilaritySearchResult F) × S
    unfolding best search_batch tokens jaccard
    search_with content memories none limit s = (
      ok (record {
        candidates =
            best (λ x. fl.below (fl.of_nat 0) x) limit (map (lexical_candidate content) memories);
        method = "lexical";
        provider_version = none;
        usage = no_embedding_usage;
      }),
      s,
    )
    search_with content memories (some provider) limit s =
        let (batch, s') = provider.embed s (content ∷ map (λ m. m.content) memories) in
        (search_batch memories limit batch, s')

    -- `rank_similar_memories`
    unfoldable pub rank_similar_memories :
        (content : String)
        → List AgentMemory
        → Option (MemoryEmbeddingProvider S F)
        → (limit : ℕ) → S
        → Result (SimilaritySearchResult F) × S
    unfolding search_with
    rank_similar_memories content memories provider limit s =
        if ltb limit 1
        then (value_error "similarity limit must be positive", s)
        else if length memories == 0
        then (
          ok (record {
            candidates = [];
            method = "none";
            provider_version = none;
            usage = no_embedding_usage;
          }),
          s,
        )
        else search_with content memories provider limit s
