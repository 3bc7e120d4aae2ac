-- ===== src/Retrieval/Cache/Refines.antt =====
-- app/services/retrieval_embedding_cache.py: a cache answers as the provider behind it.
use careerops_agent.Shared.{
  ℕ, ◌≡◌, refl, ap, sym, ◌∙◌, String, true, false, not, ◌&&◌, &&_true, some, List, [], ◌∷◌, ◌++◌,
  map, any, All, length, length-map, Bool-cases, Option-cases, inl, inr, ◌==◌, ==_eq, ==_refl,
  Eq_nat, Eq_text, Result, ok, Dict, lookup, put, has, has-put, has-put_other, Each, put-Each,
  lookup-Each, keep-All, append-All, All-weaken,
}
use careerops_agent.Retrieval.Embedding.{EmbeddingBatch, MemoryEmbeddingProvider}
use careerops_agent.Retrieval.Cache.{
  RetrievalEmbeddingCacheEntry, unique_text_by_hash, cached_vectors, missing, add_vectors, commit,
  vectors_of, listed_vector, after_vectors, after_delegate, embed_missing, cached_embed, new_entry,
  Added, same_key,
}

module _ {F S : Type 0} (sha256 : String → String)
    (others : List (RetrievalEmbeddingCacheEntry F) → List (RetrievalEmbeddingCacheEntry F))
    (delegate : MemoryEmbeddingProvider S F) (vector : String → List F) where
  -- The rows of the delegate's version hold the vectors of the texts with their digests.
  abbrev pub IsFaithful : List (RetrievalEmbeddingCacheEntry F) → Type 0
  IsFaithful = All (λ e.
      e.provider_version ≡ delegate.provider_version
      → (text : String) → sha256 text ≡ e.content_sha256
      → e.vector ≡ vector text)

  abbrev IsRight : Dict (List F) → Type 0
  IsRight = Each (λ hash v. (text : String) → sha256 text ≡ hash → v ≡ vector text)

  abbrev IsDigest : Dict String → Type 0
  IsDigest = Each (λ hash text. sha256 text ≡ hash)

  cached_vectors-IsRight :
      (unique : Dict String) (table : List (RetrievalEmbeddingCacheEntry F))
      (cached : Dict (List F))
      → IsFaithful table
      → IsRight cached
      → IsRight (cached_vectors sha256 others delegate unique table cached)
  unfolding cached_vectors
  cached_vectors-IsRight unique [] cached u r = r
  cached_vectors-IsRight unique (e ∷ table) cached (p, u) r =
      elim (Bool-cases
        (e.provider_version == delegate.provider_version && has e.content_sha256 unique)) [
          | inl t ↦
              (let same = ==_eq e.provider_version delegate.provider_version (&&_true _ _ t).0 in
                rw t (
                  cached_vectors-IsRight unique table _ u (
                    put-Each (λ hash v. (text : String) → sha256 text ≡ hash → v ≡ vector text)
                      e.content_sha256 e.vector cached (p same) r)))
          | inr f ↦ rw f (cached_vectors-IsRight unique table cached u r)
        ]

  unique-IsDigest :
      (texts : List String) (d : Dict String)
      → IsDigest d
      → IsDigest (unique_text_by_hash sha256 others delegate texts d)
  unfolding unique_text_by_hash
  unique-IsDigest [] d u = u
  unique-IsDigest (text ∷ texts) d u =
      unique-IsDigest texts _
        (put-Each (λ hash text. sha256 text ≡ hash) (sha256 text) text d refl u)

  unique-has :
      (key : String) (texts : List String) (d : Dict String)
      → has key d ≡ true
      → has key (unique_text_by_hash sha256 others delegate texts d) ≡ true
  unfolding unique_text_by_hash
  unique-has key [] d h = h
  unique-has key (text ∷ texts) d h =
      unique-has key texts _ (has-put_other key (sha256 text) text d h)

  unique-All :
      (texts : List String) (d : Dict String)
      → All
          (λ text. has (sha256 text) (unique_text_by_hash sha256 others delegate texts d) ≡ true)
          texts
  unfolding unique_text_by_hash
  unique-All [] d = tt
  unique-All (text ∷ texts) d =
      (unique-has (sha256 text) texts _ (has-put (sha256 text) text d), unique-All texts _)

  missing-has :
      (key : String) (cached : Dict (List F)) (unique : Dict String)
      → has key unique ≡ true
      → has key cached ≡ false
      → has key (missing sha256 others delegate unique cached) ≡ true
  unfolding missing
  missing-has key cached [] h g = cc
  missing-has key cached ((k, text) ∷ unique) h g = elim (Bool-cases (k == key)) [
    | inl t ↦ (let gone : has k cached ≡ false = rw (==_eq k key t) g in rw (gone, t) refl)
    | inr f ↦ elim (Bool-cases (has k cached)) [
      | inl kept ↦ rw kept (missing-has key cached unique (rw f at h) g)
      | inr gone ↦ rw (gone, f) (missing-has key cached unique (rw f at h) g)
    ]
  ]

  vectors_of-map :
      (cached : Dict (List F)) (texts : List String)
      → IsRight cached
      → All (λ text. has (sha256 text) cached ≡ true) texts
      → vectors_of sha256 others delegate cached texts ≡ some (map vector texts)
  unfolding vectors_of listed_vector
  vectors_of-map cached [] r h = refl
  vectors_of-map cached (text ∷ texts) r (h, hs) =
      elim (Option-cases (lookup (sha256 text) cached)) [
        | inl gone ↦ cc (rw gone at h)
        | inr (v, found) ↦
            (let right =
                lookup-Each (λ hash v. (text : String) → sha256 text ≡ hash → v ≡ vector text)
                  (sha256 text) cached r found text refl in
              rw (found, vectors_of-map cached texts r hs, right) refl)
      ]

  module _ (filled : (text : String) → (x : F) × (xs : List F) × (vector text ≡ x ∷ xs))
      (injective : (a b : String) → sha256 a ≡ sha256 b → a ≡ b) where
    -- The dictionary and the rows after new vectors.
    abbrev AddsTo :
        (ms : Dict String)
        → (cached : Dict (List F)) → Result (Added sha256 others delegate)
        → Type 0
    AddsTo ms cached result =
        (cached' : Dict (List F)) × (entries : List (RetrievalEmbeddingCacheEntry F)) × (result
          ≡ ok (cached', entries))
        × IsRight cached'
        × IsFaithful entries
        × ((key : String) → has key cached ≡ true → has key cached' ≡ true)
        × ((key : String) → has key ms ≡ true → has key cached' ≡ true)

    add_vectors-AddsTo :
        (ms : Dict String) (cached : Dict (List F))
        (entries : List (RetrievalEmbeddingCacheEntry F))
        → IsDigest ms
        → IsRight cached
        → IsFaithful entries
        → AddsTo ms cached (
            add_vectors sha256 others delegate ms
              (map vector (map (λ e. e.1) ms))
              (cached, entries))
    unfolding add_vectors
    add_vectors-AddsTo [] cached entries d r u =
        (cached, entries, refl, r, u, λ key h. h, λ key h. cc)
    add_vectors-AddsTo ((hash, text) ∷ ms) cached entries (d, ds) r u =
        let (x, xs, shape) = filled text in
        let right : (other : String) → sha256 other ≡ hash → (x ∷ xs) ≡ vector other =
          (λ other e. sym shape ∙ ap vector (injective text other (d ∙ sym e))) in
        let (cached', entries', added, r', u', keeps, covers) =
          add_vectors-AddsTo ms (put hash (x ∷ xs) cached)
            (entries ++ new_entry sha256 others delegate hash (x ∷ xs) ∷ []) ds
            (put-Each (λ hash v. (text : String) → sha256 text ≡ hash → v ≡ vector text) hash
              (x ∷ xs) cached right r)
            (append-All _ entries _ u (λ same. right, tt)) in
        rw shape (
          cached',
          entries',
          added,
          r',
          u',
          λ key h. keeps key (has-put_other key hash (x ∷ xs) cached h),
          λ key h. elim (Bool-cases (hash == key)) [
            | inl t ↦ keeps key (rw (==_eq hash key t) (has-put key (x ∷ xs) cached))
            | inr f ↦ covers key (rw f at h)
          ],
        )

    added-All :
        (texts : List String) (unique : Dict String) (cached cached' : Dict (List F))
        → All (λ text. has (sha256 text) unique ≡ true) texts
        → ((key : String) → has key cached ≡ true → has key cached' ≡ true)
        → ((key : String)
            → has key (missing sha256 others delegate unique cached) ≡ true
            → has key cached' ≡ true)
        → All (λ text. has (sha256 text) cached' ≡ true) texts
    added-All texts unique cached cached' u keeps covers =
        All-weaken (λ text. has (sha256 text) unique ≡ true)
          (λ text. has (sha256 text) cached' ≡ true)
          (λ text h. elim (Bool-cases (has (sha256 text) cached)) [
            | inl t ↦ keeps (sha256 text) t
            | inr f ↦ covers (sha256 text) (missing-has (sha256 text) cached unique h f)
          ])
          texts u

    commit-IsFaithful :
        (table entries : List (RetrievalEmbeddingCacheEntry F))
        → IsFaithful table
        → IsFaithful entries
        → IsFaithful (commit sha256 others delegate table entries)
    unfolding commit
    commit-IsFaithful table entries u w =
        elim (Bool-cases (any (λ e. any (same_key sha256 others delegate e) table) entries)) [
          | inl t ↦ rw t u
          | inr f ↦ rw f (append-All _ table entries u w)
        ]

    -- An answer with the vectors of its texts, beside faithful rows.
    abbrev Answers :
        (texts : List String)
        → Result (EmbeddingBatch F) × List (RetrievalEmbeddingCacheEntry F)
        → Type 0
    Answers texts answer =
        (batch : EmbeddingBatch F) × (answer.0 ≡ ok batch)
        × (batch.vectors ≡ map vector texts)
        × (batch.provider_version ≡ delegate.provider_version)
        × IsFaithful answer.1

    -- Every dictionary that extends this one by these digests has the texts.
    abbrev Suffices : (texts : List String) → Dict (List F) → (ms : Dict String) → Type 0
    Suffices texts cached ms =
        (cached' : Dict (List F))
        → ((key : String) → has key cached ≡ true → has key cached' ≡ true)
        → ((key : String) → has key ms ≡ true → has key cached' ≡ true)
        → All (λ text. has (sha256 text) cached' ≡ true) texts

    after_delegate-Answers :
        (texts : List String) (table : List (RetrievalEmbeddingCacheEntry F))
        (cached : Dict (List F)) (ms : Dict String) (usage : Dict ℕ) (batch : EmbeddingBatch F)
        → batch.vectors ≡ map vector (map (λ e. e.1) ms)
        → batch.provider_version ≡ delegate.provider_version
        → IsFaithful table
        → IsDigest ms
        → IsRight cached
        → Suffices texts cached ms
        → Answers texts
            (after_delegate sha256 others delegate texts table cached ms usage (ok batch))
    unfolding after_delegate after_vectors
    after_delegate-Answers texts table cached ms usage batch vectors version u d r suffices =
        let (cached', entries, added, r', u', keeps, covers) =
          add_vectors-AddsTo ms cached [] d r tt in
        let vs = vectors_of-map cached' texts r' (suffices cached' keeps covers) in
        let counted = length-map vector (map (λ e. e.1) ms) ∙ length-map (λ e. e.1) ms in
        rw
          (
            version,
            ==_refl delegate.provider_version,
            vectors,
            counted,
            ==_refl (length ms),
            added,
            vs,
          )
          (_, refl, refl, refl, commit-IsFaithful table entries u u')

    module _
        (answers : (s : S) (texts : List String)
          → (batch : EmbeddingBatch F) × ((delegate.embed s texts).0 ≡ ok batch)
            × (batch.vectors ≡ map vector texts)
            × (batch.provider_version ≡ delegate.provider_version))
        (others-IsFaithful : (table : List (RetrievalEmbeddingCacheEntry F))
          → IsFaithful table
          → IsFaithful (others table)) where
      embed_missing-Answers :
          (texts : List String) (table : List (RetrievalEmbeddingCacheEntry F))
          (cached : Dict (List F)) (ms : Dict String) (s : S)
          → IsFaithful table
          → IsDigest ms
          → IsRight cached
          → Suffices texts cached ms
          → (let answer = embed_missing sha256 others delegate texts table cached ms s in
              Answers texts (answer.0, answer.1.0))
      unfolding embed_missing
      embed_missing-Answers texts table cached [] s u d r suffices =
          rw (vectors_of-map cached texts r (suffices cached (λ key h. h) (λ key h. cc)))
            (_, refl, refl, refl, u)
      embed_missing-Answers texts table cached (m ∷ ms) s u d r suffices =
          let (batch, answered, vectors, version) = answers s (map (λ e. e.1) (m ∷ ms)) in
          rw answered (
            after_delegate-Answers texts (table ++ others table) cached (m ∷ ms) _ batch vectors
              version (append-All _ table (others table) u (others-IsFaithful table u)) d r
              suffices)

      -- If the provider behind a cache answers every call, under its version, with each text's
      -- vector, which is not empty, digests tell texts apart, and the rows of the cache hold the
      -- vectors of their texts, then the cache answers every call as the provider does, and its rows
      -- hold the vectors of their texts after it, whatever faithful rows other sessions commit
      -- meanwhile.
      pub cached_embed-refines :
          (table : List (RetrievalEmbeddingCacheEntry F)) (s : S) (texts : List String)
          → IsFaithful table
          → (let answer = cached_embed sha256 others delegate (table, s) texts in
              (batch : EmbeddingBatch F) × (answer.0 ≡ ok batch)
              × (batch.vectors ≡ map vector texts)
              × (batch.provider_version ≡ delegate.provider_version)
              × IsFaithful answer.1.0)
      unfolding cached_embed missing
      cached_embed-refines table s [] u = (_, refl, refl, refl, u)
      cached_embed-refines table s (text ∷ texts) u =
          let unique = unique_text_by_hash sha256 others delegate (text ∷ texts) [] in
          let cached = cached_vectors sha256 others delegate unique table [] in
          embed_missing-Answers (text ∷ texts) table cached
            (missing sha256 others delegate unique cached) s u
            (keep-All (λ e. sha256 e.1 ≡ e.0) (λ e. not (has e.0 cached)) unique
              (unique-IsDigest (text ∷ texts) [] tt))
            (cached_vectors-IsRight unique table [] u tt)
            (λ cached' keeps covers.
              added-All (text ∷ texts) unique cached cached' (unique-All (text ∷ texts) []) keeps
                covers)
