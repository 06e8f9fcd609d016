-- ===== src/Core.antt =====
-- packages/core: the shared-nothing building blocks.
pub mod Gossip
pub mod HashRing
pub mod Lock
pub mod StateStore
pub mod MembershipReconciler
