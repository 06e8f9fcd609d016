-- ===== src/Sdk/FileTransfer/SendTransfer.antt =====
-- packages/sdk/src/filetransfer/SendTransfer.ts: sending a file.
pub mod Defs
pub mod Workers
pub mod Steps
pub mod Methods
pub mod Strides
pub mod Covered
pub mod Runs
pub mod Continues
pub mod Complete
pub mod Stranded
pub mod Unfinished
