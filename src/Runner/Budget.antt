-- ===== src/Runner/Budget.antt =====
-- services/runner/runner/agent_container_manager.py: `AgentContainerManager`.
pub mod Data
pub mod Cycle
pub mod Handlers
pub mod Kills
pub mod Banks
pub mod Spending
pub mod Courses
pub mod Rules
pub mod Invariant
pub mod Setup
pub mod Start
