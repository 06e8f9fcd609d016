-- ===== src/Signaling.antt =====
-- packages/signaling: the signaling server.
pub mod RateLimiter
pub mod Protocol
pub mod Peer
pub mod Room
pub mod RoomRegistry
pub mod HeartbeatMonitor
