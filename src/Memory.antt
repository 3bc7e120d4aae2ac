-- ===== src/Memory.antt =====
-- What an agent remembers: app/services/memory_evaluator.py, memory_versioning.py,
-- memory_lifecycle.py, memory_maintenance.py and memory_runtime.py.
pub mod Rows
pub mod Candidate
pub mod Promotion
pub mod Rules
pub mod Semantics
pub mod Decision
pub mod Evaluation
pub mod Capture
pub mod Maintenance
pub mod Selection
pub mod Visible
pub mod Context
pub mod Assembly
pub mod Versioning
pub mod Lifecycle
pub mod Examples
