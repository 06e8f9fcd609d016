-- ===== src/Sdk/FileTransfer/Checksum.antt =====
-- packages/sdk/src/filetransfer/checksum.ts: a digest of the chunks' digests. SHA-256 itself is the
-- platform's: it is the argument `sha`.
use rtcforge.Prelude.{
  ℕ, ◌+◌, ◌*◌, ◌/◌, ◌%◌, List, [], ◌∷◌, Option, none, some, ltb, leb, if◌then◌else◌, length,
  replicate, number_key,
}
use rtcforge.Map
use rtcforge.Map.{Map}
use rtcforge.Sdk.FileTransfer.MemorySink.Bytes.{put_bytes}

pub record Sha256Digest : Type 0 where
  pub digests : Map ℕ (List ℕ)

abbrev pub new_digest : Sha256Digest
new_digest = record { digests = [] }

-- Insertion into an ascending list, for `sort((a, b) => a - b)`.
unfoldable pub insert_sorted : ℕ → List ℕ → List ℕ
insert_sorted a [] = a ∷ []
insert_sorted a (b ∷ bs) = if leb a b then a ∷ b ∷ bs else b ∷ insert_sorted a bs

unfoldable pub sorted : List ℕ → List ℕ
unfolding insert_sorted
sorted [] = []
sorted (a ∷ bs) = insert_sorted a (sorted bs)

or_nothing : Option (List ℕ) → List ℕ
or_nothing none = []
or_nothing (some bytes) = bytes

-- The loop of `finalize`: each digest goes to its place in the joined buffer.
unfoldable pub join_digests : Map ℕ (List ℕ) → ℕ → List ℕ → List ℕ → List ℕ
unfolding or_nothing put_bytes
join_digests digests offset [] joined = joined
join_digests digests offset (s ∷ seqs) joined =
    join_digests digests (offset + 32) seqs
      (put_bytes offset (or_nothing (Map.get s digests)) joined)

-- A hexadecimal digit, in lower case.
unfoldable pub hex_digit : ℕ → ℕ
hex_digit n = if ltb n 10 then n + b'0' else n + 87

-- `b.toString(16).padStart(2, '0')` of each byte.
unfoldable pub hex : List ℕ → List ℕ
unfolding hex_digit
hex [] = []
hex (b ∷ bs) = hex_digit (b / 16) ∷ hex_digit (b % 16) ∷ hex bs

module _ (sha : List ℕ → List ℕ) where
  unfoldable pub update : ℕ → List ℕ → Sha256Digest → Sha256Digest
  update seq bytes d = record d { digests = Map.set seq (sha bytes) d.digests }

  unfoldable pub finalize : Sha256Digest → List ℕ
  unfolding sorted join_digests hex
  finalize d =
      let seqs = sorted (Map.keys d.digests) in
      hex (sha (join_digests d.digests 0 seqs (replicate (length seqs * 32) 0)))

unfoldable pub reset : Sha256Digest → Sha256Digest
reset d = record d { digests = [] }
