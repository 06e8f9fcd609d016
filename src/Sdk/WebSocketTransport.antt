-- ===== src/Sdk/WebSocketTransport.antt =====
-- packages/sdk/src/WebSocketTransport.ts: the signaling socket, its reconnects, and the messages that
-- wait for it.
pub mod Defs
pub mod Sockets
pub mod Steps
pub mod Handlers
pub mod Shut
pub mod Attempts
pub mod Order
