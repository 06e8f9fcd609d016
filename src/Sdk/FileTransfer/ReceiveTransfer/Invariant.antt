-- ===== src/Sdk/FileTransfer/ReceiveTransfer/Invariant.antt =====
-- What every interleaving of a receive keeps: the chunk set, its counters, and who may complete.
use rtcforge.Prelude.{
  ℕ, ◌≤◌, ◌<◌, Bool, true, List, Option, ◌≡◌, ◌≢◌, sym, ap, ◌∙◌, arith, length, All, number_key,
}
use rtcforge.Map.{Distinct}
use rtcforge.Sdk.FileTransfer.Transfer.{TransferState, FileTransferErrorCode, TransferEvent}
use rtcforge.Sdk.FileTransfer.Protocol.{ControlMessage, Reason}
use rtcforge.Sdk.FileTransfer.ReceiveTransfer.Defs.{
  StorageSink, resting, ReceiveTransfer, send_control, abort_sink, transition_to, emit_in, fail,
  accept, sink_opened, reject, attach_channel, request_resume, pause, resume, cancel,
  mark_cancelled,
}
use rtcforge.Sdk.FileTransfer.ReceiveTransfer.Steps

-- Completion is claimed only with a full set, and the transfer is completed only if it was claimed.
pub record IsClaimed {S R : Type 0} (r : ReceiveTransfer S R) : Type 0 where
  pub full : r.completing ≡ true → r.base.total_chunks ≤ length r.received
  pub claimed : r.stage ≢ resting → r.completing ≡ true
  pub completed : r.base.state ≡ TransferState.completed → r.completing ≡ true

-- The chunk set holds distinct sequence numbers below the total, which the progress counts.
pub record IsValid {S R : Type 0} (r : ReceiveTransfer S R) : Type 0 where
  pub distinct : Distinct r.received
  pub in_range : All (λ s. s < r.base.total_chunks) r.received
  pub counted : r.base.transferred_chunks ≡ length r.received
  pub claims : IsClaimed r

pub record SameChunks {S R : Type 0} (r r' : ReceiveTransfer S R) : Type 0 where
  pub received : r'.received ≡ r.received
  pub total : r'.base.total_chunks ≡ r.base.total_chunks
  pub chunks : r'.base.transferred_chunks ≡ r.base.transferred_chunks

-- What most operations leave alone: they never complete a transfer.
pub record Kept {S R : Type 0} (r r' : ReceiveTransfer S R) : Type 0 where
  pub received : r'.received ≡ r.received
  pub total : r'.base.total_chunks ≡ r.base.total_chunks
  pub chunks : r'.base.transferred_chunks ≡ r.base.transferred_chunks
  pub completing : r'.completing ≡ r.completing
  pub stage : r'.stage ≡ r.stage
  pub finished : r'.base.state ≡ TransferState.completed → r.base.state ≡ TransferState.completed
  pub finishing : r'.base.state ≡ TransferState.completing → r.base.state ≡ TransferState.completing

module _ {S R : Type 0} where
  pub Kept-refl : (r : ReceiveTransfer S R) → Kept r r
  Kept-refl r = ground arith

  pub Kept-trans : {r s t : ReceiveTransfer S R} → Kept r s → Kept s t → Kept r t
  Kept-trans a b = record {
    received = b.received ∙ a.received;
    total = b.total ∙ a.total;
    chunks = b.chunks ∙ a.chunks;
    completing = b.completing ∙ a.completing;
    stage = b.stage ∙ a.stage;
    finished = λ e. a.finished (b.finished e);
    finishing = λ e. a.finishing (b.finishing e);
  }

  pub SameChunks-IsValid :
      {r r' : ReceiveTransfer S R} → SameChunks r r' → IsClaimed r' → IsValid r → IsValid r'
  SameChunks-IsValid k c v = record {
    distinct = rw (k.received) v.distinct;
    in_range = rw (k.received, k.total) v.in_range;
    counted = k.chunks ∙ v.counted ∙ ap length (sym k.received);
    claims = c;
  }

  pub Kept-IsValid : {r r' : ReceiveTransfer S R} → Kept r r' → IsValid r → IsValid r'
  Kept-IsValid k v =
      SameChunks-IsValid (record { received = k.received; total = k.total; chunks = k.chunks })
        (record {
          full = rw (k.received, k.total, k.completing) v.claims.full;
          claimed = rw (k.stage, k.completing) v.claims.claimed;
          completed = λ e. k.completing ∙ v.claims.completed (k.finished e);
        })
        v

  pub send_control-Kept : (m : ControlMessage) (r : ReceiveTransfer S R) → Kept r (send_control m r)
  unfolding send_control
  send_control-Kept m r = ground arith

  pub emit_in-Kept : (e : TransferEvent) (r : ReceiveTransfer S R) → Kept r (emit_in e r)
  unfolding emit_in
  emit_in-Kept e r = ground arith

  pub request_resume-Kept : (r : ReceiveTransfer S R) → Kept r (request_resume r)
  unfolding request_resume
  request_resume-Kept r = ground arith

  pub attach_channel-Kept : (c : ℕ) (r : ReceiveTransfer S R) → Kept r (attach_channel c r)
  unfolding attach_channel
  attach_channel-Kept c r = ground arith

  pub message-Kept : (bytes : List ℕ) (r : ReceiveTransfer S R) → Kept r (Steps.message bytes r)
  unfolding Steps.message
  message-Kept bytes r = ground arith

module _ {S R : Type 0} (sink : StorageSink S R) where
  pub transition_to-Kept :
      (next : TransferState) (r : ReceiveTransfer S R)
      → next ≢ TransferState.completed
      → next ≢ TransferState.completing
      → Kept r (transition_to sink next r).0
  unfolding transition_to
  transition_to-Kept next r other also = ground arith

  pub transition_to_completing-SameChunks :
      (r : ReceiveTransfer S R) → SameChunks r (transition_to sink TransferState.completing r).0
  unfolding transition_to
  transition_to_completing-SameChunks r = ground arith

  pub transition_to_completing-IsClaimed :
      (r : ReceiveTransfer S R)
      → IsClaimed r
      → IsClaimed (transition_to sink TransferState.completing r).0
        × ((transition_to sink TransferState.completing r).0.completing ≡ r.completing)
  unfolding transition_to
  transition_to_completing-IsClaimed r c = ground arith

  pub abort_sink-Kept : (r : ReceiveTransfer S R) → Kept r (abort_sink sink r)
  unfolding abort_sink
  abort_sink-Kept r = ground arith

  pub fail-Kept :
      (code : FileTransferErrorCode) (notify : Bool) (r : ReceiveTransfer S R)
      → Kept r (fail sink code notify r)
  unfolding fail
  fail-Kept code notify r = ground arith

  pub accept-Kept : (s : S) (r : ReceiveTransfer S R) → Kept r (accept sink s r)
  unfolding accept
  accept-Kept s r = ground arith

  pub sink_opened-Kept : (r : ReceiveTransfer S R) → Kept r (sink_opened sink r)
  unfolding sink_opened
  sink_opened-Kept r = ground arith

  pub reject-Kept : (why : Option Reason) (r : ReceiveTransfer S R) → Kept r (reject sink why r)
  unfolding reject
  reject-Kept why r = ground arith

  pub pause-Kept : (r : ReceiveTransfer S R) → Kept r (pause sink r)
  unfolding pause
  pause-Kept r = ground arith

  pub resume-Kept : (r : ReceiveTransfer S R) → Kept r (resume sink r)
  unfolding resume
  resume-Kept r = ground arith

  pub mark_cancelled-Kept :
      (why : Option Reason) (r : ReceiveTransfer S R) → Kept r (mark_cancelled sink why r)
  unfolding mark_cancelled
  mark_cancelled-Kept why r = ground arith

  pub cancel-Kept : (why : Option Reason) (r : ReceiveTransfer S R) → Kept r (cancel sink why r)
  unfolding cancel
  cancel-Kept why r = ground arith

  pub start_write-Kept : (r : ReceiveTransfer S R) → Kept r (Steps.start_write sink r)
  unfolding Steps.start_write
  start_write-Kept r = ground arith

  pub finish_write-Kept :
      (sha : List ℕ → List ℕ) (r : ReceiveTransfer S R) → Kept r (Steps.finish_write sink sha r)
  unfolding Steps.finish_write
  finish_write-Kept sha r = ground arith
