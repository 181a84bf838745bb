-- ===== src/Runner/Match.antt =====
-- services/runner/runner/match.py: a match in containers of a docker daemon.
pub mod Docker
pub mod Keeps
pub mod Resources
pub mod Router
pub mod Cleanup
pub mod Ready
pub mod Console
pub mod Args
pub mod Parts
pub mod Play
pub mod Sweep
