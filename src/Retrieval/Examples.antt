-- ===== src/Retrieval/Examples.antt =====
-- Retrieval over scores that are natural numbers, for a provider that answers or fails.
use careerops_agent.Shared.{
  ℕ, ◌+◌, ◌*◌, ◌/◌, ◌≤◌, ◌≡◌, refl, String, Option, none, some, List, [], ◌∷◌, map, All, length,
  ltb, ◌==◌, Eq_nat, Eq_text, ok, value_error, IsDistinct, arith,
}
use careerops_agent.Tool.Rows.{null, num}
use careerops_agent.Retrieval.Scores.{Floats, TokenLibrary}
use careerops_agent.Retrieval.Embedding.{EmbeddingBatch, MemoryEmbeddingProvider}
use careerops_agent.Retrieval.Hybrid.{
  RetrievalDocument, HybridRetrievalResult, rank_hybrid_documents,
}
use careerops_agent.Retrieval.Hybrid.Found.{rank_hybrid_documents-Ranks}
use careerops_agent.Retrieval.Hybrid.Fallback.{rank_hybrid_documents-fell_back}
use careerops_agent.Retrieval.Cache.{RetrievalEmbeddingCacheEntry, cached_embed}
use careerops_agent.Retrieval.Cache.Refines.{cached_embed-refines, IsFaithful}

-- Numbers in thousandths.
abbrev pub thousandths : Floats ℕ
thousandths = record {
  of_nat = λ n. n * 1000;
  plus = λ a b. a + b;
  times = λ a b. a * b / 1000;
  over = λ a b. a * 1000 / b;
  sqrt = λ a. a;
  below = ltb;
  same = λ a b. a == b;
  rounded = num;
}

-- A text is its own only token.
abbrev pub whole_texts : TokenLibrary
whole_texts = record { find_tokens = λ s. s ∷ []; lower = λ s. s }

abbrev document : (key content : String) → RetrievalDocument ℕ
document key content = record {
  key = key;
  source_type = "memory";
  content = content;
  payload = null;
  prior_score = 0;
}

abbrev documents : List (RetrievalDocument ℕ)
documents = document "a" "tools" ∷ document "b" "agents" ∷ []

-- A provider whose calls fail, and one that answers every text with the vector (1).
abbrev failing : MemoryEmbeddingProvider (Unit {0}) ℕ
failing = record { provider_version = "v1"; embed = λ s texts. (value_error "no connection", s) }

abbrev pub answering : MemoryEmbeddingProvider (Unit {0}) ℕ
answering = record {
  provider_version = "v1";
  embed = λ s texts. (
    ok (record { vectors = map (λ text. 1 ∷ []) texts; provider_version = "v1"; usage = [] }),
    s,
  );
}

rank_hybrid_documents-Ranks_example :
    (found : HybridRetrievalResult ℕ) × ((rank_hybrid_documents thousandths whole_texts 550 "agents"
        documents
        (some failing)
        1
        tt).0
      ≡ ok found)
    × All (λ c. c.document.source_type ≡ "memory") found.candidates
    × IsDistinct (λ k. k) (map (λ c. c.document.key) found.candidates)
    × (length found.candidates ≤ 1)
rank_hybrid_documents-Ranks_example =
    rank_hybrid_documents-Ranks thousandths whole_texts 550 (λ d. d.source_type ≡ "memory") "agents"
      documents (some failing) 1 tt (omega arith) (refl, (refl, tt))

abbrev no_provider : Option (MemoryEmbeddingProvider (Unit {0}) ℕ)
no_provider = none

abbrev lexical_result : HybridRetrievalResult ℕ
lexical_result = record {
  candidates =
      record {
        document = document "b" "agents";
        lexical_score = 1000;
        semantic_score = none;
        fusion_score = 16;
      }
      ∷ [];
  method = "lexical";
  provider_version = none;
  usage =
      ("embedding_calls", 0)
      ∷ ("embedding_tokens", 0)
      ∷ ("cache_hits", 0)
      ∷ ("cache_misses", 0)
      ∷ [];
  embedding_error = none;
}

lexical_ranking :
    (rank_hybrid_documents thousandths whole_texts 550 "agents" documents no_provider 1 tt).0
    ≡ ok lexical_result
unfolding rank_hybrid_documents
lexical_ranking = refl

rank_hybrid_documents-fell_back_example :
    (rank_hybrid_documents thousandths whole_texts 550 "agents" documents (some failing) 1 tt).0
    ≡ ok (record lexical_result {
      method = "lexical_fallback";
      provider_version = some "v1";
      embedding_error = some "ValueError";
    })
rank_hybrid_documents-fell_back_example =
    rank_hybrid_documents-fell_back thousandths whole_texts 550 "agents" documents failing 1 tt refl
      refl lexical_ranking

abbrev pub no_others : List (RetrievalEmbeddingCacheEntry ℕ) → List (RetrievalEmbeddingCacheEntry ℕ)
no_others table = []

abbrev pub same_text : String → String
same_text text = text

abbrev one : (text : String) → List ℕ
one text = 1 ∷ []

abbrev kept_row : RetrievalEmbeddingCacheEntry ℕ
kept_row = record {
  provider_version = "v1";
  content_sha256 = "tools";
  vector = 1 ∷ [];
  dimensions = 1;
}

-- A digest is here the text itself.
cached_embed-refines_example :
    (batch : EmbeddingBatch ℕ) × ((cached_embed same_text no_others answering
        (kept_row ∷ [], tt)
        ("agents" ∷ "tools" ∷ [])).0
      ≡ ok batch)
    × (batch.vectors ≡ (1 ∷ []) ∷ (1 ∷ []) ∷ [])
    × (batch.provider_version ≡ "v1")
    × IsFaithful same_text no_others answering one
        (cached_embed same_text no_others answering
          (kept_row ∷ [], tt)
          ("agents" ∷ "tools" ∷ [])).1.0
cached_embed-refines_example =
    cached_embed-refines same_text no_others answering one (λ text. (1, [], refl))
      (λ a b same. same) (λ s texts. (_, refl, refl, refl)) (λ table u. tt) (kept_row ∷ []) tt
      ("agents" ∷ "tools" ∷ []) (λ same text e. refl, tt)
