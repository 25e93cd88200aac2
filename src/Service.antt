-- ===== src/Service.antt =====
-- The bridges of one tunnel on one machine: crates/opentunnel-server/src/service.rs.
pub mod Bridge
pub mod Entry
pub mod Attach
pub mod Route
pub mod Ends
pub mod Apart
pub mod Numbers
pub mod Invariant
pub mod Endings
pub mod Claims
pub mod Admission
pub mod Routing
pub mod Run
pub mod Views
pub mod Carried
pub mod Served
pub mod Granted
pub mod Attached
pub mod Finished
mod Tests
