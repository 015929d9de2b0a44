-- ===== src/Checks.antt =====
-- The scripts that guard the repository.
pub mod Migrations
pub mod Retention
pub mod Lanes
pub mod Coverage
mod Tests
