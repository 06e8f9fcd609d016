-- ===== src/Sdk/FileTransfer/MemorySink.antt =====
-- packages/sdk/src/filetransfer/sink/MemorySink.ts: the sink that keeps the file in one buffer.
-- A buffer is a list of bytes; the MIME type and the `Blob` that wraps the same bytes are left out.
pub mod Bytes
pub mod Writes
use rtcforge.Prelude.{
  ℕ, zero, suc, ◌+◌, Bool, List, [], ◌∷◌, Option, none, some, ltb, if◌then◌else◌, length, replicate,
}
use Bytes.{put_bytes}

pub record MemorySink : Type 0 where
  pub buffer : Option (List ℕ)

unfoldable pub open_sink : ℕ → MemorySink → MemorySink
open_sink size s = record s { buffer = some (replicate size 0) }

-- `this._buffer ?? new Uint8Array(0)`
abbrev pub or_empty : ℕ → Option (List ℕ) → List ℕ
or_empty size none = replicate size 0
or_empty size (some bytes) = bytes

-- A buffer that ends before `end` is copied into a longer one.
unfoldable pub grown : ℕ → List ℕ → List ℕ
unfolding put_bytes
grown end buffer = if ltb (length buffer) end then put_bytes 0 buffer (replicate end 0) else buffer

unfoldable pub write : ℕ → List ℕ → MemorySink → MemorySink
unfolding put_bytes grown
write offset bytes s =
    let end = offset + length bytes in
    record s { buffer = some (put_bytes offset bytes (grown end (or_empty end s.buffer))) }

unfoldable pub close : MemorySink → List ℕ
close s = or_empty 0 s.buffer

unfoldable pub abort : MemorySink → MemorySink
abort s = record s { buffer = none }
