-- ===== src/Sdk/FileTransfer/ReceiveTransfer.antt =====
-- packages/sdk/src/filetransfer/ReceiveTransfer.ts: the receiving side of a transfer.
-- A method runs to its first `await`; what follows an `await` is a function of its own, and the
-- values that the code carries across it are fields of the state:
--   `opening`   the outcome of `sink.open` that `accept` waits for
--   `arriving`  the frames whose `toArrayBuffer` is awaited
--   `write_chain`, `in_flight`  the queued writes, and the one whose digest is being computed
--   `stage`     where the claimed run of `_tryComplete` waits
-- Control messages that are sent are appended to `outbox`. Sending is taken not to throw.
pub mod Defs
pub mod Steps
pub mod Invariant
pub mod Completion
pub mod Outcome
pub mod Stuck
