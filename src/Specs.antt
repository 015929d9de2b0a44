-- ===== src/Specs.antt =====
-- scripts/compose-specs.mjs, scripts/check-contracts.mjs and scripts/api-changelog.mjs: how the services'
-- API descriptions are put together, what is demanded of the whole, and what changed in it.
pub mod Schema
pub mod Example
pub mod Objects
pub mod Operation
pub mod Compose
pub mod Contract
pub mod Changelog
mod Tests
