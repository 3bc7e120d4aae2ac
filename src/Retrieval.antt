-- ===== src/Retrieval.antt =====
-- How the memories and the job evidence for a step are found: app/services/memory_similarity.py,
-- hybrid_retrieval.py, retrieval_embedding_cache.py and retrieval_router.py.
pub mod Scores
pub mod Embedding
pub mod Hybrid
pub mod Cache
pub mod Route
pub mod Similar
pub mod Examples
