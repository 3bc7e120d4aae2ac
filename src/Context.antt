-- ===== src/Context.antt =====
-- The context of a model request: app/services/token_budget.py and context_compaction.py.
pub mod Json
pub mod Budget
pub mod Task
pub mod Compaction
pub mod Agent
pub mod Examples
