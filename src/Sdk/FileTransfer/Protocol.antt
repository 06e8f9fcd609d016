-- ===== src/Sdk/FileTransfer/Protocol.antt =====
-- packages/sdk/src/filetransfer/protocol.ts: the messages of the control channel.
-- The reason of a message is a text, or stands for the message of an error that has the code.
use rtcforge.Prelude.{ℕ, Bool, List, Option, String}
use rtcforge.Sdk.FileTransfer.Transfer.{FileTransferErrorCode}

pub data Reason : Type 0 where
  text : String → Reason
  failure : FileTransferErrorCode → Reason

pub record OfferMessage : Type 0 where
  pub version : Option ℕ
  pub name : String
  pub mime_type : String
  pub size : ℕ
  pub chunk_size : ℕ
  pub total_chunks : ℕ
  pub parallel_channels : ℕ
  pub checksum : Bool

-- Each message carries the transfer's id first.
pub data ControlMessage : Type 0 where
  offer : String → OfferMessage → ControlMessage
  accept : String → Option (List ℕ) → ControlMessage
  reject : String → Option Reason → ControlMessage
  resume_request : String → List ℕ → ControlMessage
  sent : String → Option (List ℕ) → ControlMessage
  complete : String → ControlMessage
  checksum_mismatch : String → ControlMessage
  cancel : String → Option Reason → ControlMessage
  pause : String → ControlMessage
  resume : String → ControlMessage
