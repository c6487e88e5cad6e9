-- ===== src/Execution.antt =====
-- How Portex runs the agents: services/execution_coordinator.py, services/execution_policy.py,
-- services/execution_mode.py and services/workspace_lifecycle.py.
pub mod Workspace
pub mod Policy
pub mod Requests
pub mod Coordinator
pub mod Tests
