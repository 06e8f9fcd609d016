-- ===== src/Sdk/FileTransfer/ReceiveTransfer/Stuck.antt =====
-- A receive that is paused when its last chunk has been written.
use rtcforge.Prelude.{ℕ, true, List, [], ◌∷◌, Option, none, some, ◌≡◌, ◌≢◌, refl, ◌∙◌, arith}
use rtcforge.Sdk.FileTransfer.Transfer.{
  TransferState, move, refuse, invalid_frame, sink_write_failed,
}
use rtcforge.Sdk.FileTransfer.Framing.{DecodedFrame, decode_frame}
use rtcforge.Sdk.FileTransfer.ReceiveTransfer.Completion.{check_frame_cases}
use rtcforge.Sdk.FileTransfer.Protocol.{ControlMessage}
use rtcforge.Sdk.FileTransfer.ReceiveTransfer.Defs.{
  StorageSink, Stage, resting, draining, hashing, closing, ReceiveTransfer, try_complete,
  handle_control,
}
use rtcforge.Sdk.FileTransfer.ReceiveTransfer.Steps
use rtcforge.Sdk.FileTransfer.ReceiveTransfer.Steps.{Step, Reach}
use rtcforge.Sdk.FileTransfer.ReceiveTransfer.Invariant.{
  Kept, fail-Kept, accept-Kept, sink_opened-Kept, reject-Kept, attach_channel-Kept,
  request_resume-Kept, pause-Kept, resume-Kept, cancel-Kept, mark_cancelled-Kept, message-Kept,
  start_write-Kept, finish_write-Kept,
}

-- Completion has been claimed, the run that claimed it is past the digest, and the transfer is neither
-- completing nor completed.
pub record IsStuck {S R : Type 0} (r : ReceiveTransfer S R) : Type 0 where
  pub claimed : r.completing ≡ true
  pub past_drain : r.stage ≢ draining
  pub past_hash : (own : List ℕ) → r.stage ≢ hashing own
  pub not_completing : r.base.state ≢ TransferState.completing
  pub not_completed : r.base.state ≢ TransferState.completed

module _ {S R : Type 0} where
  Kept-IsStuck : {r r' : ReceiveTransfer S R} → Kept r r' → IsStuck r → IsStuck r'
  Kept-IsStuck k v = record {
    claimed = k.completing ∙ v.claimed;
    past_drain = rw (k.stage) v.past_drain;
    past_hash = rw (k.stage) v.past_hash;
    not_completing = λ e. v.not_completing (k.finishing e);
    not_completed = λ e. v.not_completed (k.finished e);
  }

  try_complete_claimed : (r : ReceiveTransfer S R) → r.completing ≡ true → try_complete r ≡ r
  unfolding try_complete
  try_complete_claimed r c = ground arith

  try_complete-IsStuck : {r : ReceiveTransfer S R} → IsStuck r → IsStuck (try_complete r)
  try_complete-IsStuck {r} v = rw (try_complete_claimed r v.claimed) v

  IsStuck-by :
      {r : ReceiveTransfer S R} (state : TransferState) (stage : Stage R)
      → (r.completing ≡ true) × (r.base.state ≡ state) × (r.stage ≡ stage)
      → stage ≢ draining
      → ((own : List ℕ) → stage ≢ hashing own)
      → state ≢ TransferState.completing
      → state ≢ TransferState.completed
      → IsStuck r
  IsStuck-by state stage h d k c e = record {
    claimed = h.0;
    past_drain = rw (h.2) d;
    past_hash = rw (h.2) k;
    not_completing = rw (h.1) c;
    not_completed = rw (h.1) e;
  }

  accept_chunk-IsStuck :
      (seq : ℕ) (bytes : List ℕ) (r : ReceiveTransfer S R)
      → IsStuck r
      → IsStuck (Steps.accept_chunk seq bytes r)
  unfolding Steps.accept_chunk
  accept_chunk-IsStuck seq bytes r v = try_complete-IsStuck (record {
    claimed = v.claimed;
    past_drain = v.past_drain;
    past_hash = v.past_hash;
    not_completing = v.not_completing;
    not_completed = v.not_completed;
  })

-- From a state other than `completing` no move leads to `completed`.
move-completed :
    (s : TransferState)
    → s ≢ TransferState.completing
    → s ≢ TransferState.completed
    → move s TransferState.completed ≡ refuse
unfolding move
move-completed s h k = ground arith

move_paused :
    (s : TransferState) → s ≡ TransferState.paused → move s TransferState.completing ≡ refuse
unfolding move
move_paused s e = ground arith

module _ {S R : Type 0} (sink : StorageSink S R) where
  handle_control-IsStuck :
      (m : ControlMessage) (r : ReceiveTransfer S R) → IsStuck r → IsStuck (handle_control sink m r)
  unfolding handle_control
  handle_control-IsStuck (ControlMessage.sent id digest) r v = try_complete-IsStuck (record {
    claimed = v.claimed;
    past_drain = v.past_drain;
    past_hash = v.past_hash;
    not_completing = v.not_completing;
    not_completed = v.not_completed;
  })
  handle_control-IsStuck (ControlMessage.cancel id reason) r v =
      Kept-IsStuck (mark_cancelled-Kept sink reason r) v
  handle_control-IsStuck _ r v = v

  on_frame-IsStuck :
      (f : Option DecodedFrame) (r : ReceiveTransfer S R)
      → IsStuck r
      → IsStuck (Steps.on_frame sink f r)
  unfolding Steps.on_frame
  on_frame-IsStuck none r v = Kept-IsStuck (fail-Kept sink invalid_frame true r) v
  on_frame-IsStuck (some f) r v =
      check_frame_cases sink IsStuck f r (Kept-IsStuck (fail-Kept sink invalid_frame true r) v) v
        (λ _ _ _ _. accept_chunk-IsStuck f.seq f.payload r v)

  take_frame-IsStuck :
      (frames : List (List ℕ)) (r : ReceiveTransfer S R)
      → IsStuck r
      → IsStuck (Steps.take_frame sink frames r)
  unfolding Steps.take_frame
  take_frame-IsStuck [] r v = v
  take_frame-IsStuck (bytes ∷ rest) r v =
      on_frame-IsStuck (decode_frame bytes) (record r { arriving = rest })
        (record {
          claimed = v.claimed;
          past_drain = v.past_drain;
          past_hash = v.past_hash;
          not_completing = v.not_completing;
          not_completed = v.not_completed;
        })

  closed-IsStuck :
      (stage : Stage R) (r : ReceiveTransfer S R)
      → r.stage ≡ stage
      → IsStuck r
      → IsStuck (Steps.finish_closing sink stage r)
  unfolding Steps.finish_closing
  closed-IsStuck (closing none) r e v =
      Kept-IsStuck (fail-Kept sink sink_write_failed true (record r { stage = resting })) (record {
        claimed = v.claimed;
        past_drain = λ x. cc;
        past_hash = λ own x. cc;
        not_completing = v.not_completing;
        not_completed = v.not_completed;
      })
  closed-IsStuck (closing (some value)) r e v =
      IsStuck-by r.base.state resting
        (ground (arith, v.claimed, move-completed r.base.state v.not_completing v.not_completed))
        (λ x. cc) (λ own x. cc) v.not_completing v.not_completed
  closed-IsStuck _ r e v = v

  hash_past :
      (stage : Stage R) (r : ReceiveTransfer S R)
      → r.stage ≡ stage
      → IsStuck r
      → IsStuck (Steps.finish_hashing sink stage r)
  unfolding Steps.finish_hashing
  hash_past (hashing own) r e v = absurd (v.past_hash own e)
  hash_past _ r e v = v

  close_paused :
      (s : S) (r : ReceiveTransfer S R)
      → r.base.state ≡ TransferState.paused
      → r.completing ≡ true
      → IsStuck (Steps.transition_then_close sink (some s) r)
  unfolding Steps.transition_then_close
  close_paused s r paused claimed =
      IsStuck-by TransferState.paused (closing (sink.close s).1)
        (ground (arith, move_paused r.base.state paused)) (λ x. cc) (λ own x. cc) (λ x. cc)
        (λ x. cc)

  module _ (sha : List ℕ → List ℕ) where
    drain_past :
        (stage : Stage R) (r : ReceiveTransfer S R)
        → r.stage ≡ stage
        → IsStuck r
        → IsStuck (Steps.drain_stage sink sha stage r)
    unfolding Steps.drain_stage
    drain_past draining r e v = absurd (v.past_drain e)
    drain_past _ r e v = v

    Step-IsStuck : {r r' : ReceiveTransfer S R} → Step sink sha r r' → IsStuck r → IsStuck r'
    unfolding Steps.frame_arrived Steps.drained Steps.hashed Steps.closed
    Step-IsStuck (Step.accepts r s) v = Kept-IsStuck (accept-Kept sink s r) v
    Step-IsStuck (Step.opens r) v = Kept-IsStuck (sink_opened-Kept sink r) v
    Step-IsStuck (Step.rejects r why) v = Kept-IsStuck (reject-Kept sink why r) v
    Step-IsStuck (Step.attaches r channel) v = Kept-IsStuck (attach_channel-Kept channel r) v
    Step-IsStuck (Step.asks r) v = Kept-IsStuck (request_resume-Kept r) v
    Step-IsStuck (Step.controls r m) v = handle_control-IsStuck m r v
    Step-IsStuck (Step.pauses r) v = Kept-IsStuck (pause-Kept sink r) v
    Step-IsStuck (Step.resumes r) v = Kept-IsStuck (resume-Kept sink r) v
    Step-IsStuck (Step.cancels r why) v = Kept-IsStuck (cancel-Kept sink why r) v
    Step-IsStuck (Step.messages r bytes) v = Kept-IsStuck (message-Kept bytes r) v
    Step-IsStuck (Step.frames r) v = take_frame-IsStuck r.arriving r v
    Step-IsStuck (Step.starts r) v = Kept-IsStuck (start_write-Kept sink r) v
    Step-IsStuck (Step.finishes r) v = Kept-IsStuck (finish_write-Kept sink sha r) v
    Step-IsStuck (Step.drains r _ _) v = drain_past r.stage r refl v
    Step-IsStuck (Step.hashes r) v = hash_past r.stage r refl v
    Step-IsStuck (Step.closes r) v = closed-IsStuck r.stage r refl v

    Reach-IsStuck : {r r' : ReceiveTransfer S R} → IsStuck r → Reach sink sha r r' → IsStuck r'
    Reach-IsStuck v Reach.here = v
    Reach-IsStuck v (Reach.next path step) = Step-IsStuck step (Reach-IsStuck v path)

    -- A receive that is paused when it turns to closing its sink, all chunks being written and the digest
    -- checked, never completes, whatever happens from then on: not even if it is resumed.
    pub paused_never_completes :
        (r t : ReceiveTransfer S R) (s : S)
        → r.base.state ≡ TransferState.paused
        → r.completing ≡ true
        → Reach sink sha (Steps.transition_then_close sink (some s) r) t
        → t.base.state ≢ TransferState.completed
    paused_never_completes r t s paused claimed path =
        (Reach-IsStuck (close_paused s r paused claimed) path).not_completed
