-- ===== src/Lib.antt =====
-- A verification library of rtcforge, a real-time communication framework.
--
-- The program is a set of packages. `packages/core` holds what the servers share: membership by
-- gossip, a hash ring, stores and buses. `packages/signaling` is the server that peers join rooms on;
-- `packages/sdk` is the client, with its transport and the transfer of files between peers over data
-- channels; `packages/sfu` and `packages/media` place and route media streams. The server limits each
-- peer's messages by a rate limiter; the client's transport keeps messages in a queue while it
-- reconnects with a backoff; a file transfer frames chunks, checks them against a digest, and writes
-- them to a sink.
--
-- Which file models which part:
-- - Core/Gossip, with Core/Gossip/Entries: `GossipMembership` of packages/core/src/Gossip.ts. A method is
--   a function from the state and the current time to the state (`_merge` is `merge_valid`, `_sweep` is
--   `sweep`, `_onReceive` is `on_receive`); random draws are an argument; what is sent and what watchers
--   are given is logged in the state. An incarnation is a double: `add_one` adds as the source's numbers
--   do. Core/Gossip/Merge, Self and Sweep prove.
-- - Core/HashRing, with Core/HashRing/Cyrb53: packages/core/src/HashRing.ts. Floating-point numbers are
--   the argument `Numbers`; the laws of their comparison are `IsOrder` of Core/HashRing/Routing. A
--   32-bit integer is its unsigned value, with the wrap-around written out.
-- - Core/MembershipReconciler: packages/core/src/MembershipReconciler.ts. What the handlers do while they
--   run is in the state: the snapshots that they bring about, and whether they throw.
-- - Core/Lock and Core/StateStore: `MemoryLock` of packages/core/src/Lock.ts and `MemoryStateStore` of
--   packages/core/src/StateStore.ts. The fresh token of an acquisition is an argument.
-- - Signaling: packages/signaling/src. RateLimiter is RateLimiter.ts; Protocol has the messages and close
--   reasons of protocol.ts and types.ts; Peer is Peer.ts, over the interface `WebSocket` for the socket,
--   with `truncateUtf8` in Peer/Truncation; Room is Room.ts, with State (fields, timers, transitions),
--   Sending, Joining and Leaving for its methods and the relation `Step` of Room/Life for all of them in
--   any order. RoomRegistry is RoomRegistry.ts, where the events of a room are delivered when the
--   operation that emits them is over, and HeartbeatMonitor is the sweep of HeartbeatMonitor.ts.
-- - Sfu: packages/sfu/src. SfuNode is SfuNode.ts; CascadeTree is CascadeTree.ts, with `planCascadeTree`
--   in CascadeTree/Plan on a store of nodes, and the trees of the rooms in CascadeTree/Rooms.
--   SfuCluster is SfuCluster.ts, where a node is a number whose state the store of objects has;
--   PlacementStrategy is the strategy of the least load, HealthChecker the sweeps of probes with the
--   race of each against its timer, and NodeFailureTracker the nodes that were lost.
--   UdpGossipTransport is the wire of the gossip, over the interface `Platform`, with Messages for
--   what it lets through and Wire for the datagrams. Each stands in the file of its name.
-- - Sdk/SendQueue: packages/sdk/src/SendQueue.ts. The callback of `drain` is a function that tells what
--   it enqueues while it runs, and whether it throws.
-- - Sdk/ReconnectStrategy: packages/sdk/src/ReconnectStrategy.ts, with delays in fractions of a
--   millisecond.
-- - Sdk/WebSocketTransport: packages/sdk/src/WebSocketTransport.ts, over the two before: every method,
--   timer and callback, on all the sockets that were made, in Defs and Sockets, and Steps the relation
--   of all of them. JSON and the URL are arguments, the messages for which sending throws are a field of
--   the state, and what a socket was given stands in `wire`.
-- - Sdk/FileTransfer: packages/sdk/src/filetransfer. Transfer is the state machine of Transfer.ts;
--   Framing, Sanitize, Checksum, MemorySink and Protocol are the files of these names, and Tuning is
--   `resolveTuning` of types.ts. ReceiveTransfer
--   is ReceiveTransfer.ts: Defs has the methods, Steps what happens between two suspensions of its
--   asynchronous code, and the relation `Step` of all of them, in any order. The sink is the interface
--   `StorageSink`, and SHA-256 the argument `sha`. SendTransfer is SendTransfer.ts with channel.ts: Defs
--   has the methods, Workers what a worker does when its wait is over, and Steps the relation of all of
--   them. The data channel is the interface `DataChannel`, and the source the argument `read`; `Ledger`
--   says what a channel keeps of the frames that it took. Methods reduces what the methods keep to
--   what their parts keep, and Sdk/WebSocketTransport/Handlers does so for the transport.
-- - Prelude and Map hold what the others share: the `Map` of the source's language is a list of entries
--   in insertion order.
-- - Tests applies the theorems at concrete inputs.
--
-- Three loops run on fuel: the truncation of a close reason, on the number of its code units, the
-- growth of a cascade tree, on the size of the pool, and the calls of `_sync` by itself, on the
-- number of the handlers' reactions; the theorems on them show that it is enough. Every other loop
-- is structural. Times and counters are natural numbers; a test `a <= now - b` is written `a + b <=
-- now`, or with a subtraction that stops at 0 where that decides alike.
--
-- Not modelled: the signaling server itself, the rooms of the client, the manager of the transfers, the
-- bridges and statistics of packages/sfu, and the package media; sockets, files, timers, WebRTC and
-- cryptography belong to the platform.
pub mod Prelude
pub mod Map
pub mod Sdk
pub mod Signaling
pub mod Sfu
pub mod Core
mod Tests
