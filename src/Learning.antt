-- ===== src/Learning.antt =====
-- The learning plan of a task, which a person approves: app/services/learning_graph.py, and its routes
-- in app/main.py.
pub mod Graph
pub mod Routes
pub mod Examples
