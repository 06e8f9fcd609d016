-- ===== src/Sdk.antt =====
-- packages/sdk: the client library.
pub mod SendQueue
pub mod ReconnectStrategy
pub mod WebSocketTransport
pub mod FileTransfer
