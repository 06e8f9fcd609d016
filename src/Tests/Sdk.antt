-- ===== src/Tests/Sdk.antt =====
-- The client's queue, backoff, framing, file names and memory sink at concrete inputs.
use rtcforge.Prelude.{
  ℕ, ◌+◌, ◌-◌, ◌%◌, ◌≤◌, ◌<◌, max, true, false, List, [], ◌∷◌, ◌++◌, some, ◌≡◌, refl, arith, length,
  get_elem?, All, ◌⊎◌, replicate,
}
use rtcforge.Sdk.SendQueue.{SendQueue, Sent, drain}
use rtcforge.Sdk.SendQueue.Fifo.{drain_fifo}
use rtcforge.Sdk.ReconnectStrategy.{ReconnectStrategy, base_delay}
use rtcforge.Sdk.FileTransfer.Framing.{
  DecodedFrame, encode_frame, decode_frame, decode_frame-encode_frame, encode_frame-decode_frame,
}
use rtcforge.Sdk.FileTransfer.Sanitize.{sanitize_file_name, IsSafe}
use rtcforge.Sdk.FileTransfer.Sanitize.Safety.{sanitize_file_name-IsSafe, sanitize_file_name_parent}
use rtcforge.Sdk.FileTransfer.MemorySink.{MemorySink, write, close}
use rtcforge.Sdk.FileTransfer.MemorySink.Writes.{write_lem}

abbrev queue : SendQueue ℕ
queue = record { items = 5 ∷ 6 ∷ []; max_size = 3 }

-- The callback enqueues 9 while it runs, and never throws.
abbrev chatty : ℕ → Sent ℕ
chatty x = record { reentrant = 9 ∷ []; threw = false }

-- The callback throws at once.
abbrev failing : ℕ → Sent ℕ
failing x = record { reentrant = x ∷ x ∷ []; threw = true }

drain_fifo_example :
    (drain failing queue).transmitted ++ (drain failing queue).queue.items
    ≡ (5 ∷ 6 ∷ []) ++ (drain failing queue).accepted
drain_fifo_example = drain_fifo failing queue

abbrev strategy : ReconnectStrategy
strategy = record { attempt = 2; max_delay_ms = 30000; max_attempts = some 3 }

base_delay-pos : 0 < base_delay strategy
unfolding base_delay
base_delay-pos = omega arith

decode_frame-encode_frame_example :
    (decode_frame (encode_frame 258 (7 ∷ []))
      ≡ some (record { seq = 258 % 4294967296; payload = 7 ∷ [] }))
    × (258 < 4294967296 → 258 % 4294967296 ≡ 258)
decode_frame-encode_frame_example = decode_frame-encode_frame 258 (7 ∷ [])

abbrev two_bytes : List ℕ
two_bytes = 1 ∷ 2 ∷ []

abbrev frame : List ℕ
frame = 0 ∷ 0 ∷ 1 ∷ 2 ∷ 7 ∷ []

abbrev decoded : DecodedFrame
decoded = record { seq = 258; payload = 7 ∷ [] }

frame-bytes : All (λ b. b < 256) frame
frame-bytes = (omega arith, (omega arith, (omega arith, (omega arith, (omega arith, tt)))))

frame-decodes : decode_frame frame ≡ some decoded
unfolding decode_frame
frame-decodes = refl

encode_frame-decode_frame_example : (encode_frame 258 (7 ∷ []) ≡ frame) × (258 < 4294967296)
encode_frame-decode_frame_example =
    encode_frame-decode_frame frame decoded frame-bytes frame-decodes

-- `../a|b`
abbrev remote_name : List ℕ
remote_name = b'.' ∷ b'.' ∷ b'/' ∷ b'a' ∷ 124 ∷ b'b' ∷ []

sanitize_file_name-IsSafe_example :
    All IsSafe (sanitize_file_name remote_name)
    × (0 < length (sanitize_file_name remote_name))
    × (length (sanitize_file_name remote_name) ≤ 255)
sanitize_file_name-IsSafe_example = sanitize_file_name-IsSafe remote_name

sanitize_file_name_parent_example :
    sanitize_file_name (replicate 1 32 ++ (b'.' ∷ b'.' ∷ [])) ≡ b'.' ∷ b'.' ∷ []
sanitize_file_name_parent_example = sanitize_file_name_parent 0

abbrev old : List ℕ
old = 1 ∷ 2 ∷ 3 ∷ []

abbrev new : List ℕ
new = 8 ∷ 9 ∷ []

abbrev half_written : MemorySink
half_written = record { buffer = some old }

write_lem_example :
    (length (close (write 2 new half_written)) ≡ max (length old) (2 + length new))
    × ((j : ℕ)
        → 2 ≤ j
        → j < 2 + length new
        → get_elem? (close (write 2 new half_written)) j ≡ get_elem? new (j - 2))
    × ((j : ℕ)
        → j < length old
        → (j < 2) ⊎ (2 + length new ≤ j)
        → get_elem? (close (write 2 new half_written)) j ≡ get_elem? old j)
write_lem_example = write_lem 2 new old half_written refl
