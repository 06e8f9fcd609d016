-- ===== src/Sdk/FileTransfer/Framing.antt =====
-- packages/sdk/src/filetransfer/framing.ts: a chunk on the wire is a big-endian 32-bit sequence
-- number and the payload. Buffers are lists of bytes.
use rtcforge.Prelude.{
  ℕ, ◌+◌, ◌*◌, ◌/◌, ◌%◌, ◌≤◌, ◌<◌, List, ◌∷◌, Option, none, some, ◌≡◌, arith, ltb, if◌then◌else◌,
  length, drop, All,
}

abbrev pub frame_header_bytes : ℕ
frame_header_bytes = 4

pub record DecodedFrame : Type 0 where
  pub seq : ℕ
  pub payload : List ℕ

-- `DataView.setUint32(0, seq, false)` keeps the low 32 bits, the high byte first.
unfoldable pub encode_frame : ℕ → List ℕ → List ℕ
encode_frame seq payload =
    let word = seq % 4294967296 in
    (word / 16777216) ∷ (word / 65536 % 256) ∷ (word / 256 % 256) ∷ (word % 256) ∷ payload

-- `DataView.getUint32(0, false)`.
get_uint32 : List ℕ → ℕ
get_uint32 (a ∷ b ∷ c ∷ d ∷ rest) = ((a * 256 + b) * 256 + c) * 256 + d
get_uint32 bytes = 0

-- `none` is the `FT_INVALID_FRAME` error.
unfoldable pub decode_frame : List ℕ → Option DecodedFrame
unfolding get_uint32
decode_frame bytes =
    if ltb (length bytes) frame_header_bytes
    then none
    else some (record { seq = get_uint32 bytes; payload = drop frame_header_bytes bytes })

-- Decoding what was encoded gives the payload back, and the sequence number modulo 2^32: the number
-- itself below that bound.
pub decode_frame-encode_frame :
    (seq : ℕ) (payload : List ℕ)
    → (decode_frame (encode_frame seq payload)
        ≡ some (record { seq = seq % 4294967296; payload = payload }))
      × (seq < 4294967296 → seq % 4294967296 ≡ seq)
unfolding decode_frame encode_frame
decode_frame-encode_frame seq payload = (ground arith, λ h. omega arith)

-- A buffer is refused exactly when it is shorter than the header.
pub decode_frame-eq-none :
    (bytes : List ℕ)
    → ((length bytes < 4) → decode_frame bytes ≡ none)
      × (4 ≤ length bytes → (f : DecodedFrame) × (decode_frame bytes ≡ some f))
unfolding decode_frame
decode_frame-eq-none bytes = (
  λ h. ground arith,
  λ h. (record { seq = get_uint32 bytes; payload = drop 4 bytes }, ground arith),
)

-- Every buffer of bytes that decodes is the encoding of what it decodes to.
pub encode_frame-decode_frame :
    (bytes : List ℕ) (f : DecodedFrame)
    → All (λ b. b < 256) bytes
    → decode_frame bytes ≡ some f
    → (encode_frame f.seq f.payload ≡ bytes) × (f.seq < 4294967296)
unfolding decode_frame encode_frame
encode_frame-decode_frame (a ∷ b ∷ c ∷ d ∷ rest) f h e = ground arith
encode_frame-decode_frame bytes f h e = absurd (ground arith)
