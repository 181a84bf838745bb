-- ===== src/Db.antt =====
-- services/sa_common/sa_common/db: the data layer. A table is the list of its rows; a statement is a
-- function of the rows, and `NOW()` is an argument.
pub mod Rows
pub mod MatchJobs
pub mod TestJobs
pub mod Projects
pub mod Matches
pub mod AgentScores
pub mod Leaderboard
pub mod GuestSessions
pub mod Quotas
mod Tests
pub mod ScoreTests
mod GuestTests
