-- ===== src/Tests.antt =====
-- The theorems at concrete inputs.
mod Gossip
mod HashRing
mod Sdk
mod Receive
mod Signaling
mod Stores
mod Tuning
mod Room
mod Sfu
mod Send
mod Transport
mod Reconciler
mod Cluster
mod Udp
