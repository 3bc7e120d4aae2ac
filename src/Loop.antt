-- ===== src/Loop.antt =====
-- The agent loop: app/services/agent_loop.py, with agent_workflow.py around it and
-- agent_run_recovery.py after a stop.
pub mod Names
pub mod Model
pub mod Store
pub mod Has
pub mod Request
pub mod Observe
pub mod Record
pub mod Finish
pub mod Engine
pub mod Workflow
pub mod Resume
pub mod Recovery
pub mod Stale
pub mod Examples
