-- ===== src/Lifecycle.antt =====
-- The life of a tunnel's record and certificate: crates/opentunnel-server/src/service.rs, from `lock` to
-- `retry_failed_issuance`.
pub mod World
pub mod Cache
pub mod Reread
pub mod Saves
pub mod Issuance
pub mod Renewals
pub mod Reports
pub mod Api
pub mod Bind
pub mod Recovery
pub mod Sweeps
pub mod Spec
pub mod Triples
pub mod Steps
pub mod Statements
pub mod Reading
pub mod Locks
pub mod Saving
pub mod Written
pub mod Parts
pub mod Handlers
pub mod Changes
pub mod Renewing
pub mod Reporting
pub mod Recovering
pub mod Serving
pub mod Binding
pub mod Requests
pub mod Machines
pub mod Overwrites
pub mod Bound
pub mod Started
pub mod Promises
pub mod Refusals
pub mod Staleness
pub mod Outcomes
mod Tests
