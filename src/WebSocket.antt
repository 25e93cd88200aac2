-- ===== src/WebSocket.antt =====
-- The server's side of a bridge's WebSocket: crates/opentunnel-server/src/websocket.rs.
mod Unmask
mod Reader
mod Stable
mod Loop
mod Connection
mod Divided
mod Sizes
mod Bounded
mod Masked
mod Writer
mod Sent
mod Tests
