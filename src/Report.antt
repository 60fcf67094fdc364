-- ===== src/Report.antt =====
-- src/report: the leaderboard, the archive of runs and the static portal.
pub mod Leaderboard
pub mod Language
pub mod Paths
pub mod Archive
pub mod Html
