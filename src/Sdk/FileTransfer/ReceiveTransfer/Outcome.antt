-- ===== src/Sdk/FileTransfer/ReceiveTransfer/Outcome.antt =====
-- What a completed receive has received.
use rtcforge.Prelude.{ℕ, ◌<◌, Bool, true, List, String, ◌≡◌, arith, length, number_key}
use rtcforge.Map.{contains}
use rtcforge.Map.Pigeonhole.{length_of_below, contains_of_full}
use rtcforge.Sdk.FileTransfer.Transfer.{TransferState, FileMetadata}
use rtcforge.Sdk.FileTransfer.ReceiveTransfer.Defs.{StorageSink, ReceiveTransfer, new_receive}
use rtcforge.Sdk.FileTransfer.ReceiveTransfer.Steps.{Reach}
use rtcforge.Sdk.FileTransfer.ReceiveTransfer.Completion.{new_receive-IsValid, Reach-IsValid}

module _ {S R : Type 0} (sink : StorageSink S R) (sha : List ℕ → List ℕ) where
  -- However the application, the sender and the event loop interleave, a receive that is completed has
  -- received every chunk of the offer exactly once, and its progress says so.
  pub completed_receive :
      (id peer : String) (m : FileMetadata) (chunk_size total : ℕ) (checksum : Bool)
      (r : ReceiveTransfer S R)
      → Reach sink sha (new_receive sink id peer m chunk_size total checksum) r
      → r.base.state ≡ TransferState.completed
      → (length r.received ≡ r.base.total_chunks)
        × (r.base.transferred_chunks ≡ r.base.total_chunks)
        × ((seq : ℕ) → seq < r.base.total_chunks → contains seq r.received ≡ true)
  completed_receive id peer m chunk_size total checksum r path done =
      let v =
        Reach-IsValid sink sha (new_receive-IsValid sink id peer m chunk_size total checksum)
          path in
      let full = v.claims.full (v.claims.completed done) in
      let most = length_of_below r.base.total_chunks r.received v.distinct v.in_range in
      (
        omega arith,
        omega (arith, v.counted),
        λ seq low.
            contains_of_full r.base.total_chunks seq r.received v.distinct v.in_range full low,
      )
