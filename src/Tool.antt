-- ===== src/Tool.antt =====
-- The reliable tool runtime: app/services/tools.py, authorization.py, tool_approval.py,
-- tool_runtime.py and tool_recovery.py.
pub mod Rows
pub mod Same
pub mod Keys
pub mod Saved
pub mod Tests
pub mod Registry
pub mod Approval
pub mod Authorization
pub mod Execution
pub mod Runtime
pub mod Recovery
pub mod PlanSteps
pub mod Samples
