-- ===== src/Retrieval/Hybrid/Found.antt =====
-- app/services/hybrid_retrieval.py: a ranking answers with documents that it was given, each key once.
use careerops_agent.Shared.{
  ℕ, suc, ◌≤◌, ◌≡◌, refl, ap, sym, ◌∙◌, String, Bool, true, false, not, Option, none, some, List,
  [], ◌∷◌, map, All, Bool-cases, Option-cases, some_inj, inl, inr, length, ltb, ◌==◌, ==_eq,
  ==_refl, is_some, take, sorted, Dict, Each, put-Each, IsDistinct, sorted-IsDistinct,
  take-IsDistinct, sorted-All, take-All, keep-All, map-All, All-weaken, length-map, map-IsDistinct,
  length-take-le, put-IsDistinct, Eq_text, Eq_nat, Result, ok, raised, arith,
}
use careerops_agent.Retrieval.Scores.{Floats, TokenLibrary}
use careerops_agent.Retrieval.Embedding.{EmbeddingBatch, MemoryEmbeddingProvider}
use careerops_agent.Retrieval.Hybrid.{
  RetrievalDocument, RankedRetrievalDocument, HybridRetrievalResult, Semantic, by_key, ranking,
  fuse, gather, add_candidate, fused_scores, rank_with, rank_documents, rank_hybrid_documents,
  read_batch, not_semantic, read_vectors, result_of, better_fused, score_in, semantic_of,
  lexical_scores,
}

positive_limit : (limit : ℕ) → 1 ≤ limit → ltb limit 1 ≡ false
positive_limit limit h = ground arith

module _ {F : Type 0} (fl : Floats F) (t : TokenLibrary) (semantic_threshold : F) where
  abbrev key_of : RankedRetrievalDocument F → String
  key_of c = c.document.key

  -- The keys that the documents have.
  abbrev Known : List (RetrievalDocument F) → String → Type 0
  Known documents key = is_some (by_key fl t semantic_threshold documents key) ≡ true

  later-Known :
      (d : RetrievalDocument F) (documents : List (RetrievalDocument F)) (key : String)
      → Known documents key
      → Known (d ∷ documents) key
  unfolding by_key
  later-Known d documents key h = rw (h, h) refl

  documents-Known :
      (documents : List (RetrievalDocument F)) → All (λ d. Known documents d.key) documents
  unfolding by_key
  documents-Known [] = tt
  documents-Known (d ∷ documents) = (
    (let later = by_key fl t semantic_threshold documents d.key in
        elim (Bool-cases (is_some later)) [
          | inl found ↦ rw (found, found) refl
          | inr gone ↦ rw (gone, ==_refl d.key) refl
        ]),
    All-weaken (λ e. Known documents e.key) (λ e. Known (d ∷ documents) e.key)
        (λ e. later-Known d documents e.key) documents (documents-Known documents),
  )

  ranking-Known :
      (documents : List (RetrievalDocument F)) (score : RetrievalDocument F → F) (counts : F → Bool)
      → All (Known documents) (ranking fl t semantic_threshold score counts documents)
  unfolding ranking
  ranking-Known documents score counts =
      map-All (Known documents) (λ d. d.key) _
        (keep-All (λ d. Known documents d.key) (λ d. counts (score d)) _
          (sorted-All (λ d. Known documents d.key) _ documents (documents-Known documents)))

  fuse-Known :
      (documents : List (RetrievalDocument F)) (position : ℕ) (keys : List String) (fused : Dict F)
      → All (Known documents) keys
      → Each (λ key _. Known documents key) fused
      → Each (λ key _. Known documents key) (fuse fl t semantic_threshold position keys fused)
  unfolding fuse
  fuse-Known documents position [] fused h e = e
  fuse-Known documents position (key ∷ keys) fused (h, hs) e =
      fuse-Known documents (suc position) keys _ hs
        (put-Each (λ key _. Known documents key) key _ fused h e)

  fuse-IsDistinct :
      (position : ℕ) (keys : List String) (fused : Dict F)
      → IsDistinct (λ e. e.0) fused
      → IsDistinct (λ e. e.0) (fuse fl t semantic_threshold position keys fused)
  unfolding fuse
  fuse-IsDistinct position [] fused u = u
  fuse-IsDistinct position (key ∷ keys) fused u =
      fuse-IsDistinct (suc position) keys _ (put-IsDistinct key _ fused u)

  fused_scores-Known :
      (documents : List (RetrievalDocument F)) (lexical : Dict F) (semantic : Semantic F)
      → All (Known documents) semantic.rank
      → Each
          (λ key _. Known documents key)
          (fused_scores fl t semantic_threshold lexical semantic documents)
  unfolding fused_scores
  fused_scores-Known documents lexical semantic k =
      let by_words =
        ranking-Known documents (score_in fl t semantic_threshold lexical)
          (λ x. fl.below (fl.of_nat 0) x) in
      let by_policy =
        ranking-Known documents (λ d. d.prior_score) (λ x. fl.below (fl.of_nat 0) x) in
      search (fuse-Known documents, by_words, by_policy, k, tt)

  fused_scores-IsDistinct :
      (documents : List (RetrievalDocument F)) (lexical : Dict F) (semantic : Semantic F)
      → IsDistinct (λ e. e.0) (fused_scores fl t semantic_threshold lexical semantic documents)
  unfolding fused_scores
  fused_scores-IsDistinct documents lexical semantic = search (fuse-IsDistinct, tt)

  -- What the candidates are, for documents that are all as `P` says.
  module _ {κ} (P : RetrievalDocument F → Type κ) where
    by_key_sound :
        (documents : List (RetrievalDocument F)) (key : String) {d : RetrievalDocument F}
        → All P documents
        → by_key fl t semantic_threshold documents key ≡ some d
        → P d × (d.key ≡ key)
    unfolding by_key
    by_key_sound [] key u h = cc
    by_key_sound (e ∷ documents) key (p, ps) h =
        let later = by_key fl t semantic_threshold documents key in
        elim (Option-cases later) [
          | inr (d', found) ↦ by_key_sound documents key ps (found ∙ rw found at h)
          | inl gone ↦ elim (Bool-cases (e.key == key)) [
            | inl same ↦ rw (sym (some_inj (rw (gone, same) at h))) (p, ==_eq e.key key same)
            | inr other ↦ cc (rw (gone, other) at h)
          ]
        ]

    -- The candidates that a list of known keys gathers, in its order.
    abbrev Gathered : List (String × F) → Option (List (RankedRetrievalDocument F)) → Type κ
    Gathered ranked found =
        (cs : List (RankedRetrievalDocument F)) × (found ≡ some cs)
        × (map key_of cs ≡ map (λ e. e.0) ranked)
        × All (λ c. P c.document) cs

    gather-Gathered :
        (documents : List (RetrievalDocument F)) (lexical semantic : Dict F)
        (ranked : List (String × F))
        → All P documents
        → Each (λ key _. Known documents key) ranked
        → Gathered ranked (gather fl t semantic_threshold documents lexical semantic ranked)
    unfolding gather add_candidate
    gather-Gathered documents lexical semantic [] u k = ([], refl, refl, tt)
    gather-Gathered documents lexical semantic ((key, score) ∷ ranked) u (k, ks) =
        let (cs, gathered, keys, ps) = gather-Gathered documents lexical semantic ranked u ks in
        elim (Option-cases (by_key fl t semantic_threshold documents key)) [
          | inl gone ↦ cc (rw gone at k)
          | inr (d, found) ↦
              (let (p, same) = by_key_sound documents key u found in
                rw (found, gathered) (_, refl, rw (same, keys) refl, (p, ps)))
        ]

    -- Candidates among the documents, each key once, and no more than the limit.
    abbrev Ranks : (limit : ℕ) → Result (HybridRetrievalResult F) → Type κ
    Ranks limit result =
        (found : HybridRetrievalResult F) × (result ≡ ok found)
        × All (λ c. P c.document) found.candidates
        × IsDistinct (λ k. k) (map key_of found.candidates)
        × (length found.candidates ≤ limit)

    result_of-Ranks :
        (limit : ℕ) (version : Option String) (semantic : Semantic F) (ranked : List (String × F))
        (found : Option (List (RankedRetrievalDocument F)))
        → Gathered ranked found
        → IsDistinct (λ e. e.0) ranked
        → length ranked ≤ limit
        → Ranks limit (result_of fl t semantic_threshold version semantic found)
    result_of-Ranks limit version semantic ranked found (cs, gathered, keys, ps) once fits =
        rw gathered (
          _,
          refl,
          ps,
          rw keys (map-IsDistinct (λ e. e.0) ranked once),
          omega (arith, fits, ap length keys, length-map key_of cs, length-map (λ e. e.0) ranked),
        )

    rank_with-Ranks :
        (query : String) (documents : List (RetrievalDocument F)) (limit : ℕ)
        (version : Option String) (semantic : Semantic F)
        → All P documents
        → All (Known documents) semantic.rank
        → Ranks limit (rank_with fl t semantic_threshold query documents limit version semantic)
    unfolding rank_with
    rank_with-Ranks query documents limit version semantic u k =
        let lexical = lexical_scores fl t semantic_threshold query documents [] in
        let fused = fused_scores fl t semantic_threshold lexical semantic documents in
        let order = better_fused fl t semantic_threshold in
        let ranked = sorted order fused in
        result_of-Ranks limit version semantic (take limit ranked) _
          (gather-Gathered documents lexical semantic.scores (take limit ranked) u (
            take-All (λ e. Known documents e.0) limit ranked
              (sorted-All (λ e. Known documents e.0) order fused
                (fused_scores-Known documents lexical semantic k))))
          (take-IsDistinct (λ e. e.0) limit ranked
            (sorted-IsDistinct (λ e. e.0) order fused
              (fused_scores-IsDistinct documents lexical semantic)))
          (length-take-le limit ranked)

  semantic_of-Known :
      (documents : List (RetrievalDocument F)) (usage : Dict ℕ) (scores : Result (Dict F))
      → All (Known documents) (semantic_of fl t semantic_threshold documents usage scores).rank
  unfolding semantic_of
  semantic_of-Known documents usage (raised x) = tt
  semantic_of-Known documents usage (ok scores) =
      ranking-Known documents (score_in fl t semantic_threshold scores)
        (λ x. not (fl.below x semantic_threshold))

  read_vectors-Known :
      (documents : List (RetrievalDocument F)) (usage : Dict ℕ) (vectors : List (List F))
      → All (Known documents) (read_vectors fl t semantic_threshold documents usage vectors).rank
  unfolding read_vectors
  read_vectors-Known documents usage [] = tt
  read_vectors-Known documents usage (q ∷ vectors) =
      elim (Bool-cases (length vectors == length documents)) [
        | inl same ↦ rw same (semantic_of-Known documents usage _)
        | inr other ↦ rw other tt
      ]

  read_batch-Known :
      (documents : List (RetrievalDocument F)) (batch : Result (EmbeddingBatch F))
      → All (Known documents) (read_batch fl t semantic_threshold documents batch).rank
  unfolding read_batch
  read_batch-Known documents (raised x) = tt
  read_batch-Known documents (ok batch) = read_vectors-Known documents batch.usage batch.vectors

  module _ {κ} (P : RetrievalDocument F → Type κ) {S : Type 0} where
    rank_documents-Ranks :
        (query : String) (documents : List (RetrievalDocument F))
        (provider : Option (MemoryEmbeddingProvider S F)) (limit : ℕ) (s : S)
        → All P documents
        → Ranks P limit (rank_documents fl t semantic_threshold query documents provider limit s).0
    unfolding rank_documents
    rank_documents-Ranks query documents none limit s u =
        rank_with-Ranks P query documents limit none (not_semantic none) u tt
    rank_documents-Ranks query documents (some provider) limit s u =
        let (batch, s') = provider.embed s (query ∷ map (λ d. d.content) documents) in
        rank_with-Ranks P query documents limit (some provider.provider_version)
          (read_batch fl t semantic_threshold documents batch) u (read_batch-Known documents batch)

    -- For a positive limit, a ranking returns, whatever the provider of embeddings does: its candidates
    -- are documents that it was given, each key once, and no more than the limit.
    pub rank_hybrid_documents-Ranks :
        (query : String) (documents : List (RetrievalDocument F))
        (provider : Option (MemoryEmbeddingProvider S F)) (limit : ℕ) (s : S)
        → 1 ≤ limit
        → All P documents
        → (found : HybridRetrievalResult F) × ((rank_hybrid_documents fl t semantic_threshold query
              documents provider limit s).0
            ≡ ok found)
          × All (λ c. P c.document) found.candidates
          × IsDistinct (λ k. k) (map (λ c. c.document.key) found.candidates)
          × (length found.candidates ≤ limit)
    unfolding rank_hybrid_documents
    rank_hybrid_documents-Ranks query documents provider limit s h u =
        elim (Bool-cases (length documents == 0)) [
          | inl empty ↦ rw (positive_limit limit h, empty) (_, refl, tt, tt, omega arith)
          | inr some_left ↦
              rw (positive_limit limit h, some_left)
                (rank_documents-Ranks query documents provider limit s u)
        ]
