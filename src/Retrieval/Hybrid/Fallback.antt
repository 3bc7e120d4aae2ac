-- ===== src/Retrieval/Hybrid/Fallback.antt =====
-- app/services/hybrid_retrieval.py: what a failure of the provider of embeddings changes.
use careerops_agent.Shared.{
  ℕ, ◌≡◌, ap, String, false, Option, none, some, List, ◌∷◌, map, ltb, length, ◌==◌, Eq_nat,
  Bool-cases, inl, inr, Exception, Result, ok, raised,
}
use careerops_agent.Retrieval.Scores.{Floats, TokenLibrary}
use careerops_agent.Retrieval.Embedding.{MemoryEmbeddingProvider}
use careerops_agent.Retrieval.Hybrid.{
  RetrievalDocument, RankedRetrievalDocument, HybridRetrievalResult, rank_with, rank_documents,
  rank_hybrid_documents, read_batch, not_semantic, result_of,
}

module _ {F : Type 0} (fl : Floats F) (t : TokenLibrary) (semantic_threshold : F) where
  abbrev fell_back :
      (version : Option String) (kind : String) → HybridRetrievalResult F → HybridRetrievalResult F
  fell_back version kind found = record found {
    method = "lexical_fallback";
    provider_version = version;
    embedding_error = some kind;
  }

  abbrev also_fell_back :
      (version : Option String) (kind : String)
      → Result (HybridRetrievalResult F)
      → Result (HybridRetrievalResult F)
  also_fell_back version kind (ok found) = ok (fell_back version kind found)
  also_fell_back version kind (raised x) = raised x

  result_of-fell_back :
      (version kind : String) (gathered : Option (List (RankedRetrievalDocument F)))
      {found : HybridRetrievalResult F}
      → result_of fl t semantic_threshold none (not_semantic none) gathered ≡ ok found
      → result_of fl t semantic_threshold (some version) (not_semantic (some kind)) gathered
        ≡ ok (fell_back (some version) kind found)
  result_of-fell_back version kind none h = cc
  result_of-fell_back version kind (some candidates) h = ap (also_fell_back (some version) kind) h

  module _ {S : Type 0} where
    -- If the provider of embeddings raises, the ranking is that of the words and the policy alone: the
    -- same candidates and usage, with the method `lexical_fallback` and the exception's type beside it.
    pub rank_hybrid_documents-fell_back :
        (query : String) (documents : List (RetrievalDocument F))
        (provider : MemoryEmbeddingProvider S F) (limit : ℕ) (s : S) {x : Exception}
        {found : HybridRetrievalResult F}
        → (length documents == 0) ≡ false
        → (provider.embed s (query ∷ map (λ d. d.content) documents)).0 ≡ raised x
        → (rank_hybrid_documents fl t semantic_threshold query documents none limit s).0 ≡ ok found
        → (rank_hybrid_documents fl t semantic_threshold query documents (some provider) limit s).0
          ≡ ok (record found {
            method = "lexical_fallback";
            provider_version = some provider.provider_version;
            embedding_error = some x.kind;
          })
    unfolding rank_hybrid_documents rank_documents rank_with read_batch
    rank_hybrid_documents-fell_back query documents provider limit s {x} {found} some_left fails
          lexical =
        elim (Bool-cases (ltb limit 1)) [
          | inl t ↦ cc (rw t at lexical)
          | inr f ↦
              rw (f, some_left, fails)
                (result_of-fell_back provider.provider_version x.kind _
                  (rw (f, some_left) at lexical))
        ]
