-- ===== src/Sfu.antt =====
-- packages/sfu: the forwarding units of a cluster.
pub mod SfuNode
pub mod CascadeTree
pub mod PlacementStrategy
pub mod SfuCluster
pub mod HealthChecker
pub mod NodeFailureTracker
pub mod UdpGossipTransport
