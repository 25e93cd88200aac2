-- ===== src/Store.antt =====
-- The database: crates/opentunnel-server/src/store.rs. A table is a list of rows, an SQL statement a
-- function on it (it is atomic in the program), and a call that runs several statements composes them.
-- The texts of the statements and the encoding of the rows are not modelled; times lie below 2 ^ 63,
-- where the casts to `i64` keep them.
pub mod Jobs
pub mod Rows
pub mod Leases
pub mod Claims
pub mod Requeues
pub mod Tunnels
pub mod Revisions
pub mod Saves
pub mod Alarms
mod Writes
mod Tests
