-- ===== src/Sfu/UdpGossipTransport.antt =====
-- packages/sfu/src/UdpGossipTransport.ts: gossip over datagrams, authenticated and protected from
-- replay. A buffer is the list of its bytes. A message that is sent is an object, with a number.
pub mod Messages
pub mod Wire
pub mod Sanitized
pub mod Authentic
