-- ===== src/Runner.antt =====
-- services/runner/runner: the match runner.
pub mod Cgroup
pub mod Budget
pub mod StepLog
pub mod Results
pub mod Match
mod Tests
mod MatchTests
pub mod ResultTests
