-- ===== src/Signaling/Room.antt =====
-- packages/signaling/src/Room.ts: a group of peers that exchange messages.
pub mod State
pub mod Sending
pub mod Leaving
pub mod Joining
pub mod Invariant
pub mod Departures
pub mod Arrivals
pub mod Life
pub mod Closing
pub mod Rejoin
