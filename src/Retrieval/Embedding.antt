-- ===== src/Retrieval/Embedding.antt =====
-- app/services/memory_similarity.py: what turns texts into vectors, and the one that is configured.
use Prim.Native.String.{◌++◌ as concat}
use careerops_agent.Shared.{
  ℕ, String, not, ◌||◌, Option, none, some, List, [], ◌∷◌, if◌then◌else◌, or_else, ◌==◌, Eq_text,
  Result, ok, raised, value_error, Dict,
}
use careerops_agent.Shared.Text.{strip}

pub record EmbeddingBatch (F : Type 0) : Type 0 where
  pub vectors : List (List F)
  pub provider_version : String
  pub usage : Dict ℕ

-- The `MemoryEmbeddingProvider` protocol, for calls that read and write a state. A call may raise.
pub record MemoryEmbeddingProvider (S F : Type 0) : Type 0 where
  pub provider_version : String
  pub embed : S → (texts : List String) → Result (EmbeddingBatch F) × S

-- The response of `openai.embeddings.create`.
pub record EmbeddingResponse (F : Type 0) : Type 0 where
  pub embeddings : List (List F)
  pub total_tokens : ℕ

openai_batch :
    {F : Type 0} (provider_version : String)
    → Result (EmbeddingResponse F)
    → Result (EmbeddingBatch F)
openai_batch version (raised x) = raised x
openai_batch version (ok response) = ok (record {
  vectors = response.embeddings;
  provider_version = version;
  usage = ("embedding_calls", 1) ∷ ("embedding_tokens", response.total_tokens) ∷ [];
})

-- `OpenAIMemoryEmbeddingProvider`, of a client.
pub openai_memory_embedding_provider :
    {S F : Type 0} (create : (model : String) → List String → Result (EmbeddingResponse F))
    → (model : String) → MemoryEmbeddingProvider S F
unfolding openai_batch
openai_memory_embedding_provider create model = record {
  provider_version = concat "openai:" model;
  embed = λ s texts. (openai_batch (concat "openai:" model) (create model texts), s);
}

-- `create_configured_retrieval_embedding_provider`, of the environment.
unfoldable pub create_configured_retrieval_embedding_provider :
    {S F : Type 0} (getenv : String → Option String)
    → (lower : String → String)
    → (create : (model : String) → List String → Result (EmbeddingResponse F))
    → Result (Option (MemoryEmbeddingProvider S F))
unfolding strip openai_memory_embedding_provider
create_configured_retrieval_embedding_provider getenv lower create =
    let provider =
      lower (strip (or_else (getenv "CAREEROPS_RETRIEVAL_EMBEDDING_PROVIDER") "disabled")) in
    let allowed = lower (strip (or_else (getenv "CAREEROPS_ALLOW_EXTERNAL_RETRIEVAL") "false")) in
    if provider == "" || provider == "disabled" || provider == "none"
    then ok none
    else if not (provider == "openai")
    then value_error (concat "unsupported retrieval embedding provider: " provider)
    else if not (allowed == "1" || allowed == "true" || allowed == "yes")
    then value_error "external retrieval embeddings require CAREEROPS_ALLOW_EXTERNAL_RETRIEVAL=true"
    else ok (some (openai_memory_embedding_provider create "text-embedding-3-small"))
