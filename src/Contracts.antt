-- ===== src/Contracts.antt =====
-- packages/contracts/src: the runtime that every front end shares.
pub mod Errors
pub mod Gateway
pub mod Claims
pub mod Telemetry
pub mod Refresh
pub mod Client
mod Tests
