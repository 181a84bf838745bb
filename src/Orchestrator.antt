-- ===== src/Orchestrator.antt =====
-- services/orchestrator/orchestrator: who plays whom, and when.
pub mod Matchmaker
pub mod Scheduler
pub mod Agents
pub mod MatchPolicy
pub mod RunnerDaemon
pub mod TestRunner
mod Tests
mod DaemonTests
mod TestRunnerTests
