-- ===== src/Proxy.antt =====
-- The PROXY protocol: the header that a client writes to a route's target,
-- crates/opentunnel/src/protocol/proxy.rs, and the parser of headers in front of public connections,
-- crates/opentunnel-server/src/proxy_protocol.rs. Texts of addresses are parsed and printed by the
-- standard library; the parser of version 1 takes that parsing as arguments.
pub mod Write
pub mod Parse
pub mod Version2
pub mod Pieces
mod Tests
