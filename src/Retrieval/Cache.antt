-- ===== src/Retrieval/Cache.antt =====
-- app/services/retrieval_embedding_cache.py: vectors that are kept by the digest of their text.
pub mod Refines
use careerops_agent.Shared.{
  ℕ, ◌+◌, String, Bool, true, false, not, ◌&&◌, ◌||◌, Option, none, some, List, [], ◌∷◌, ◌++◌, map,
  keep, any, length, if◌then◌else◌, ◌==◌, Eq_nat, Eq_text, Result, ok, raised, value_error, Dict,
  lookup, put, has, update,
}
use careerops_agent.Retrieval.Embedding.{EmbeddingBatch, MemoryEmbeddingProvider}
use careerops_agent.Retrieval.Hybrid.{zero_usage}

-- A row, which its provider's version and its digest identify.
pub record RetrievalEmbeddingCacheEntry (F : Type 0) : Type 0 where
  pub provider_version : String
  pub content_sha256 : String
  pub vector : List F
  pub dimensions : ℕ

-- `sha256` is the digest of a text; `others` are the rows that other sessions commit, to such a table,
-- while a call asks its delegate.
module _ {F S : Type 0} (sha256 : String → String)
    (others : List (RetrievalEmbeddingCacheEntry F) → List (RetrievalEmbeddingCacheEntry F))
    (delegate : MemoryEmbeddingProvider S F) where
  -- `dict(zip(hashes, texts))`
  pub unique_text_by_hash : List String → Dict String → Dict String
  unique_text_by_hash [] d = d
  unique_text_by_hash (text ∷ texts) d = unique_text_by_hash texts (put (sha256 text) text d)

  -- The query for the vectors of these digests.
  pub cached_vectors :
      Dict String → List (RetrievalEmbeddingCacheEntry F) → Dict (List F) → Dict (List F)
  cached_vectors unique [] cached = cached
  cached_vectors unique (e ∷ table) cached =
      let found = cached_vectors unique table (put e.content_sha256 e.vector cached) in
      let passed = cached_vectors unique table cached in
      if e.provider_version == delegate.provider_version && has e.content_sha256 unique
      then found
      else passed

  pub missing : Dict String → (cached : Dict (List F)) → Dict String
  missing unique cached = keep (λ e. not (has e.0 cached)) unique

  pub hits : (cached : Dict (List F)) → List String → ℕ
  hits cached [] = 0
  hits cached (text ∷ texts) = (if has (sha256 text) cached then 1 else 0) + hits cached texts

  -- The vectors with the new ones, and the rows for those.
  abbrev Added : Type 0
  Added = Dict (List F) × List (RetrievalEmbeddingCacheEntry F)

  abbrev new_entry : (hash : String) (vector : List F) → RetrievalEmbeddingCacheEntry F
  new_entry hash vector = record {
    provider_version = delegate.provider_version;
    content_sha256 = hash;
    vector = vector;
    dimensions = length vector;
  }

  pub add_vectors : (missing : Dict String) → List (List F) → Added → Result Added
  add_vectors (m ∷ ms) ([] ∷ vectors) added =
      value_error "embedding vectors must have non-zero dimensions"
  add_vectors (m ∷ ms) ((x ∷ xs) ∷ vectors) (cached, entries) =
      add_vectors ms vectors (put m.0 (x ∷ xs) cached, entries ++ new_entry m.0 (x ∷ xs) ∷ [])
  add_vectors ms vectors added = ok added

  -- `cache_session.commit()`: the unique key refuses all rows if it refuses one.
  abbrev same_key : (e f : RetrievalEmbeddingCacheEntry F) → Bool
  same_key e f = e.provider_version == f.provider_version && e.content_sha256 == f.content_sha256

  pub commit :
      (table entries : List (RetrievalEmbeddingCacheEntry F))
      → List (RetrievalEmbeddingCacheEntry F)
  commit table entries =
      let clash = any (λ e. any (same_key e) table) entries in
      if clash then table else table ++ entries

  -- `[cached[content_hash] for content_hash in hashes]`: `none` is a missing key.
  pub listed_vector : Option (List F) → Option (List (List F)) → Option (List (List F))
  listed_vector (some v) (some vs) = some (v ∷ vs)
  listed_vector v vs = none

  pub vectors_of : (cached : Dict (List F)) → List String → Option (List (List F))
  unfolding listed_vector
  vectors_of cached [] = some []
  vectors_of cached (text ∷ texts) =
      listed_vector (lookup (sha256 text) cached) (vectors_of cached texts)

  abbrev batch_of : (usage : Dict ℕ) → Option (List (List F)) → Result (EmbeddingBatch F)
  batch_of usage none = raised (record { kind = "KeyError"; text = "" })
  batch_of usage (some vectors) =
      ok (record { vectors = vectors; provider_version = delegate.provider_version; usage = usage })

  abbrev pub usage_before : (cached : Dict (List F)) (texts : List String) (misses : ℕ) → Dict ℕ
  unfolding hits
  usage_before cached texts misses =
      put "cache_misses" misses (put "cache_hits" (hits cached texts) zero_usage)

  pub after_vectors :
      (texts : List String)
      → (table : List (RetrievalEmbeddingCacheEntry F)) → (usage : Dict ℕ) → Result Added
      → Result (EmbeddingBatch F) × List (RetrievalEmbeddingCacheEntry F)
  unfolding vectors_of commit
  after_vectors texts table usage (raised x) = (raised x, table)
  after_vectors texts table usage (ok (cached, entries)) =
      (batch_of usage (vectors_of cached texts), commit table entries)

  -- The `if missing_hashes` block and what follows it.
  pub after_delegate :
      (texts : List String)
      → (table : List (RetrievalEmbeddingCacheEntry F))
      → (cached : Dict (List F)) (missing : Dict String) (usage : Dict ℕ)
      → Result (EmbeddingBatch F)
      → Result (EmbeddingBatch F) × List (RetrievalEmbeddingCacheEntry F)
  unfolding after_vectors add_vectors
  after_delegate texts table cached missing usage (raised x) = (raised x, table)
  after_delegate texts table cached missing usage (ok batch) =
      if not (batch.provider_version == delegate.provider_version)
      then (value_error "embedding provider version changed during the request", table)
      else if not (length batch.vectors == length missing)
      then (value_error "embedding provider returned the wrong number of vectors", table)
      else after_vectors texts table (update usage batch.usage)
          (add_vectors missing batch.vectors (cached, []))

  pub embed_missing :
      (texts : List String)
      → (table : List (RetrievalEmbeddingCacheEntry F))
      → (cached : Dict (List F)) (missing : Dict String) → S
      → Result (EmbeddingBatch F) × (List (RetrievalEmbeddingCacheEntry F) × S)
  unfolding after_delegate vectors_of
  embed_missing texts table cached [] s =
      (batch_of (usage_before cached texts 0) (vectors_of cached texts), (table, s))
  embed_missing texts table cached (m ∷ ms) s =
      let (answer, s') = delegate.embed s (map (λ e. e.1) (m ∷ ms)) in
      let (batch, table') =
        after_delegate texts (table ++ others table) cached (m ∷ ms)
          (usage_before cached texts (length (m ∷ ms))) answer in
      (batch, (table', s'))

  -- `CachedRetrievalEmbeddingProvider.embed`
  unfoldable pub cached_embed :
      List (RetrievalEmbeddingCacheEntry F) × S
      → (texts : List String)
      → Result (EmbeddingBatch F) × (List (RetrievalEmbeddingCacheEntry F) × S)
  unfolding embed_missing cached_vectors unique_text_by_hash missing
  cached_embed (table, s) [] = (batch_of zero_usage (some []), (table, s))
  cached_embed (table, s) (text ∷ texts) =
      let unique = unique_text_by_hash (text ∷ texts) [] in
      let cached = cached_vectors unique table [] in
      embed_missing (text ∷ texts) table cached (missing unique cached) s

  unfoldable pub cached_provider :
      MemoryEmbeddingProvider (List (RetrievalEmbeddingCacheEntry F) × S) F
  unfolding cached_embed
  cached_provider = record { provider_version = delegate.provider_version; embed = cached_embed }
