-- ===== src/Run.antt =====
-- Agent runs: app/services/agent_run_lease.py, agent_run_worker.py and agent_run_recovery.py.
pub mod Rows
pub mod Lease
pub mod Worker
