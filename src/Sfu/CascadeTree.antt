-- ===== src/Sfu/CascadeTree.antt =====
-- packages/sfu/src/CascadeTree.ts: trees of forwarding nodes for large broadcasts.
pub mod Plan
pub mod Growth
pub mod Rooms
pub mod Mirror
pub mod Followed
pub mod Links
