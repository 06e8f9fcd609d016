-- ===== src/Sdk/FileTransfer.antt =====
-- packages/sdk/src/filetransfer: chunked file transfer between two peers.
pub mod Framing
pub mod Sanitize
pub mod MemorySink
pub mod Transfer
pub mod Tuning
pub mod Checksum
pub mod Protocol
pub mod ReceiveTransfer
pub mod SendTransfer
