-- ===== src/Retrieval/Similar/Among.antt =====
-- app/services/memory_similarity.py: what a search returns is among the memories searched.
use careerops_agent.Shared.{
  ℕ, ◌≤◌, ◌≡◌, subst, String, Bool, Option, none, some, List, [], ◌∷◌, length, ltb, ◌==◌, Eq_nat,
  Result, ok, raised, Dict, All, take-All, keep-All, sorted-All, map-All, length-take-le,
  Bool-cases, inl, inr, arith,
}
use careerops_agent.Memory.Rows.{AgentMemory}
use careerops_agent.Retrieval.Scores.{Floats, TokenLibrary, cosine}
use careerops_agent.Retrieval.Embedding.{EmbeddingBatch, MemoryEmbeddingProvider}
use careerops_agent.Retrieval.Similar.{
  SimilarityCandidate, SimilaritySearchResult, best, nearer, vector_candidates, and_scored,
  embedding_result, search_vectors, search_batch, search_with, rank_similar_memories,
  lexical_candidate,
}

module _ {κ} {F : Type 0} (fl : Floats F) (t : TokenLibrary) (embedding_candidate_threshold : F)
    (P : AgentMemory → Type κ) where
  abbrev Candidates : List (SimilarityCandidate F) → Type κ
  Candidates = All (λ c. P c.memory)

  -- An answer of memories that are as `P` says, no more than the limit.
  abbrev Finds : (limit : ℕ) → Result (SimilaritySearchResult F) → Type κ
  Finds limit (raised x) = Unit
  Finds limit (ok found) = Candidates found.candidates × (length found.candidates ≤ limit)

  best-Candidates :
      (counts : F → Bool) (limit : ℕ) (cs : List (SimilarityCandidate F))
      → Candidates cs
      → Candidates (best fl t embedding_candidate_threshold counts limit cs)
        × (length (best fl t embedding_candidate_threshold counts limit cs) ≤ limit)
  unfolding best
  best-Candidates counts limit cs u = (
    take-All _ limit _ (
        keep-All (λ c. P c.memory) (λ c. counts c.score) _
          (sorted-All (λ c. P c.memory) (nearer fl t embedding_candidate_threshold) cs u)),
    length-take-le limit _,
  )

  abbrev Scored : Result (List (SimilarityCandidate F)) → Type κ
  Scored (raised x) = Unit
  Scored (ok cs) = Candidates cs

  and_scored-Scored :
      (m : AgentMemory) (score : Result F) (rest : Result (List (SimilarityCandidate F)))
      → P m
      → Scored rest
      → Scored (and_scored fl t embedding_candidate_threshold m score rest)
  and_scored-Scored m (raised x) rest p u = tt
  and_scored-Scored m (ok score) (raised x) p u = tt
  and_scored-Scored m (ok score) (ok rest) p u = (p, u)

  vector_candidates-Scored :
      (q : List F) (memories : List AgentMemory) (vectors : List (List F))
      → All P memories
      → Scored (vector_candidates fl t embedding_candidate_threshold q memories vectors)
  unfolding vector_candidates
  vector_candidates-Scored q [] vectors u = tt
  vector_candidates-Scored q (m ∷ memories) [] u = tt
  vector_candidates-Scored q (m ∷ memories) (v ∷ vectors) (p, u) =
      and_scored-Scored m (cosine fl q v) _ p (vector_candidates-Scored q memories vectors u)

  embedding_result-Finds :
      (limit : ℕ) (version : String) (usage : Dict ℕ) (cs : Result (List (SimilarityCandidate F)))
      → Scored cs
      → Finds limit (embedding_result fl t embedding_candidate_threshold limit version usage cs)
  unfolding embedding_result
  embedding_result-Finds limit version usage (raised x) u = tt
  embedding_result-Finds limit version usage (ok cs) u = best-Candidates _ limit cs u

  search_vectors-Finds :
      (memories : List AgentMemory) (limit : ℕ) (version : String) (usage : Dict ℕ)
      (vectors : List (List F))
      → All P memories
      → Finds limit
          (search_vectors fl t embedding_candidate_threshold memories limit version usage vectors)
  unfolding search_vectors
  search_vectors-Finds memories limit version usage [] u = tt
  search_vectors-Finds memories limit version usage (q ∷ vectors) u =
      elim (Bool-cases (length vectors == length memories)) [
        | inl same ↦ rw same (
            embedding_result-Finds limit version usage _
              (vector_candidates-Scored q memories vectors u))
        | inr other ↦ rw other tt
      ]

  search_batch-Finds :
      (memories : List AgentMemory) (limit : ℕ) (batch : Result (EmbeddingBatch F))
      → All P memories
      → Finds limit (search_batch fl t embedding_candidate_threshold memories limit batch)
  unfolding search_batch
  search_batch-Finds memories limit (raised x) u = tt
  search_batch-Finds memories limit (ok batch) u =
      search_vectors-Finds memories limit batch.provider_version batch.usage batch.vectors u

  module _ {S : Type 0} where
    search_with-Finds :
        (content : String) (memories : List AgentMemory)
        (provider : Option (MemoryEmbeddingProvider S F)) (limit : ℕ) (s : S)
        → All P memories
        → Finds limit
            (search_with fl t embedding_candidate_threshold content memories provider limit s).0
    unfolding search_with
    search_with-Finds content memories none limit s u = best-Candidates _ limit _ (
        map-All (λ c. P c.memory) (lexical_candidate fl t embedding_candidate_threshold content)
          memories u)
    search_with-Finds content memories (some provider) limit s u =
        search_batch-Finds memories limit _ u

    rank_similar_memories-Finds :
        (content : String) (memories : List AgentMemory)
        (provider : Option (MemoryEmbeddingProvider S F)) (limit : ℕ) (s : S)
        → All P memories
        → Finds limit
            (rank_similar_memories fl t embedding_candidate_threshold content memories provider
              limit s).0
    unfolding rank_similar_memories
    rank_similar_memories-Finds content memories provider limit s u =
        elim (Bool-cases (ltb limit 1)) [
          | inl small ↦ rw small tt
          | inr enough ↦ elim (Bool-cases (length memories == 0)) [
            | inl empty ↦ rw (enough, empty) (tt, omega arith)
            | inr there ↦ rw (enough, there) (search_with-Finds content memories provider limit s u)
          ]
        ]

    -- The memories that a search returns are among those that it was given, and no more than its
    -- limit, whatever the provider of embeddings does.
    pub rank_similar_memories-among :
        (content : String) (memories : List AgentMemory)
        (provider : Option (MemoryEmbeddingProvider S F)) (limit : ℕ) (s : S)
        {found : SimilaritySearchResult F}
        → All P memories
        → (rank_similar_memories fl t embedding_candidate_threshold content memories provider limit
            s).0
          ≡ ok found
        → All (λ c. P c.memory) found.candidates × (length found.candidates ≤ limit)
    rank_similar_memories-among content memories provider limit s u h =
        subst (Finds limit) h (rank_similar_memories-Finds content memories provider limit s u)
