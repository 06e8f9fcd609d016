-- ===== src/Sdk/FileTransfer/ReceiveTransfer/Completion.antt =====
-- Every interleaving keeps a receive valid, so it completes only with the full set of chunks.
use rtcforge.Prelude.{
  ℕ, ◌+◌, ◌*◌, ◌≤◌, ◌<◌, Bool, true, false, List, [], ◌∷◌, Option, none, some, String, ◌≡◌, ◌≢◌,
  refl, ◌∙◌, inl, inr, arith, length, length-append, leb, ltb, Bool-cases, All-append, number_key,
}
use rtcforge.Map.{contains, Distinct-append}
use rtcforge.Sdk.FileTransfer.Framing.{DecodedFrame, decode_frame}
use rtcforge.Sdk.FileTransfer.Checksum.{Sha256Digest}
use rtcforge.Sdk.FileTransfer.Transfer.{
  TransferState, FileMetadata, invalid_frame, checksum_mismatch, is_terminal,
}
use rtcforge.Sdk.FileTransfer.Protocol.{ControlMessage}
use rtcforge.Sdk.FileTransfer.ReceiveTransfer.Defs.{
  StorageSink, Stage, resting, draining, hashing, ReceiveTransfer, new_receive, fresh, try_complete,
  handle_control, fail,
}
use rtcforge.Sdk.FileTransfer.ReceiveTransfer.Steps
use rtcforge.Sdk.FileTransfer.ReceiveTransfer.Steps.{Step, Reach}
use rtcforge.Sdk.FileTransfer.ReceiveTransfer.Invariant.{
  IsValid, IsClaimed, SameChunks, SameChunks-IsValid, Kept-IsValid, fail-Kept, transition_to-Kept,
  accept-Kept, sink_opened-Kept, reject-Kept, attach_channel-Kept, request_resume-Kept, pause-Kept,
  resume-Kept, cancel-Kept, mark_cancelled-Kept, message-Kept, transition_to_completing-SameChunks,
  transition_to_completing-IsClaimed, start_write-Kept, abort_sink-Kept, send_control-Kept,
  finish_write-Kept,
}

module _ {S R : Type 0} where
  try_complete-SameChunks : (r : ReceiveTransfer S R) → SameChunks r (try_complete r)
  unfolding try_complete
  try_complete-SameChunks r = ground arith

  try_complete-IsClaimed : {r : ReceiveTransfer S R} → IsClaimed r → IsClaimed (try_complete r)
  unfolding try_complete
  try_complete-IsClaimed {r} c = ground arith

  try_complete-IsValid : {r : ReceiveTransfer S R} → IsValid r → IsValid (try_complete r)
  try_complete-IsValid {r} v =
      SameChunks-IsValid (try_complete-SameChunks r) (try_complete-IsClaimed v.claims) v

  accept_chunk-IsValid :
      (seq : ℕ) (bytes : List ℕ) {r : ReceiveTransfer S R}
      → seq < r.base.total_chunks
      → contains seq r.received ≡ false
      → IsValid r
      → IsValid (Steps.accept_chunk seq bytes r)
  unfolding Steps.accept_chunk
  accept_chunk-IsValid seq bytes {r} h new v =
      let len = length-append r.received (seq ∷ []) in
      try_complete-IsValid (record {
        distinct = Distinct-append seq r.received new v.distinct;
        in_range =
            All-append (λ s. s < r.base.total_chunks) r.received (seq ∷ []) v.in_range (h, tt);
        counted = omega (arith, v.counted);
        claims = record {
          full = λ e. omega (arith, v.claims.full e);
          claimed = v.claims.claimed;
          completed = v.claims.completed;
        };
      })

module _ {S R : Type 0} (sink : StorageSink S R) where
  fresh-IsValid :
      (id peer : String) (m : FileMetadata) (chunk_size total : ℕ) (checksum : Bool)
      → IsValid (fresh {S = S} {R = R} id peer m chunk_size total checksum)
  unfolding fresh
  fresh-IsValid id peer m chunk_size total checksum = record {
    distinct = tt;
    in_range = tt;
    counted = refl;
    claims = record { full = λ e. cc; claimed = λ h. absurd (h refl); completed = λ e. cc };
  }

  pub new_receive-IsValid :
      (id peer : String) (m : FileMetadata) (chunk_size total : ℕ) (checksum : Bool)
      → IsValid (new_receive sink id peer m chunk_size total checksum)
  unfolding new_receive
  new_receive-IsValid id peer m chunk_size total checksum =
      Kept-IsValid (transition_to-Kept sink TransferState.offered _ (λ e. cc) (λ e. cc))
        (fresh-IsValid id peer m chunk_size total checksum)

  handle_control-IsValid :
      (m : ControlMessage) {r : ReceiveTransfer S R} → IsValid r → IsValid (handle_control sink m r)
  unfolding handle_control
  handle_control-IsValid (ControlMessage.sent id digest) {r} v = try_complete-IsValid (
      SameChunks-IsValid {r = r} (record { received = refl; total = refl; chunks = refl })
        (record {
          full = v.claims.full;
          claimed = v.claims.claimed;
          completed = v.claims.completed;
        })
        v)
  handle_control-IsValid (ControlMessage.cancel id reason) {r} v =
      Kept-IsValid (mark_cancelled-Kept sink reason r) v
  handle_control-IsValid _ v = v

  -- A frame fails the transfer, is a duplicate, or passes every check.
  pub check_frame_cases {ℓ} :
      (P : ReceiveTransfer S R → Type ℓ) (f : DecodedFrame) (r : ReceiveTransfer S R)
      → P (fail sink invalid_frame true r)
      → P r
      → (f.seq < r.base.total_chunks
          → length f.payload ≤ r.base.chunk_size
          → f.seq * r.base.chunk_size + length f.payload ≤ r.base.metadata.size
          → contains f.seq r.received ≡ false
          → P (Steps.accept_chunk f.seq f.payload r))
      → P (Steps.check_frame sink f r)
  unfolding Steps.check_frame
  check_frame_cases P f r failed same new = elim (Bool-cases (leb r.base.total_chunks f.seq)) [
    | inl e ↦ rw e failed
    | inr e ↦ rw e (elim (Bool-cases (ltb r.base.chunk_size (length f.payload))) [
      | inl e' ↦ rw e' failed
      | inr e' ↦
          rw e'
            (elim (Bool-cases
              (ltb r.base.metadata.size (f.seq * r.base.chunk_size + length f.payload))) [
                | inl e'' ↦ rw e'' failed
                | inr e'' ↦ rw e'' (elim (Bool-cases (contains f.seq r.received)) [
                  | inl old ↦ rw old same
                  | inr fresh ↦ rw fresh (new (ground arith) (ground arith) (ground arith) fresh)
                ])
              ])
    ])
  ]

  check_frame-IsValid :
      (f : DecodedFrame) {r : ReceiveTransfer S R}
      → IsValid r
      → IsValid (Steps.check_frame sink f r)
  check_frame-IsValid f {r} v =
      check_frame_cases IsValid f r (Kept-IsValid (fail-Kept sink invalid_frame true r) v) v
        (λ low small fits new. accept_chunk-IsValid f.seq f.payload low new v)

  on_frame-IsValid :
      (f : Option DecodedFrame) (r : ReceiveTransfer S R)
      → IsValid r
      → IsValid (Steps.on_frame sink f r)
  unfolding Steps.on_frame
  on_frame-IsValid none r v = Kept-IsValid (fail-Kept sink invalid_frame true r) v
  on_frame-IsValid (some f) r v = check_frame-IsValid f v

  take_frame-IsValid :
      (frames : List (List ℕ)) (r : ReceiveTransfer S R)
      → IsValid r
      → IsValid (Steps.take_frame sink frames r)
  unfolding Steps.take_frame
  take_frame-IsValid [] r v = v
  take_frame-IsValid (bytes ∷ rest) r v =
      on_frame-IsValid (decode_frame bytes) (record r { arriving = rest })
        (record {
          distinct = v.distinct;
          in_range = v.in_range;
          counted = v.counted;
          claims = record {
            full = v.claims.full;
            claimed = v.claims.claimed;
            completed = v.claims.completed;
          };
        })

  at_stage-IsValid :
      (stage : Stage R) {r : ReceiveTransfer S R}
      → (stage ≢ resting → r.completing ≡ true)
      → IsValid r
      → IsValid (record r { stage = stage })
  at_stage-IsValid stage c v = record {
    distinct = v.distinct;
    in_range = v.in_range;
    counted = v.counted;
    claims = record { full = v.claims.full; claimed = c; completed = v.claims.completed };
  }

  refuse_digest-IsValid :
      (r : ReceiveTransfer S R) → IsValid r → IsValid (Steps.refuse_digest sink r)
  unfolding Steps.refuse_digest
  refuse_digest-IsValid r v = Kept-IsValid (fail-Kept sink checksum_mismatch false _) (
      Kept-IsValid (abort_sink-Kept sink _) (
        Kept-IsValid (send_control-Kept _ (record r { stage = resting }))
          (at_stage-IsValid resting {r = r} (λ h. absurd (h refl)) v)))

  with_sink-IsValid :
      (o : Option S) (stage : Stage R) (r : ReceiveTransfer S R)
      → r.completing ≡ true
      → IsValid r
      → IsValid (record r { sink = o; stage = stage })
  with_sink-IsValid o stage r c v = record {
    distinct = v.distinct;
    in_range = v.in_range;
    counted = v.counted;
    claims = record { full = v.claims.full; claimed = λ h. c; completed = v.claims.completed };
  }

  transition_then_close-IsValid :
      (o : Option S) (r : ReceiveTransfer S R)
      → r.completing ≡ true
      → IsValid r
      → IsValid (Steps.transition_then_close sink o r)
  unfolding Steps.transition_then_close
  transition_then_close-IsValid none r c v =
      at_stage-IsValid resting {r = r} (λ h. absurd (h refl)) v
  transition_then_close-IsValid (some s) r c v =
      let k = transition_to_completing-SameChunks sink r in
      let (claims, kept) = transition_to_completing-IsClaimed sink r v.claims in
      with_sink-IsValid _ _ _ (kept ∙ c) (SameChunks-IsValid k claims v)

  compare_digest-IsValid :
      (own : List ℕ) (expected : Option (List ℕ)) (r : ReceiveTransfer S R)
      → r.completing ≡ true
      → IsValid r
      → IsValid (Steps.compare_digest sink own expected r)
  unfolding Steps.compare_digest
  compare_digest-IsValid own none r c v = refuse_digest-IsValid r v
  compare_digest-IsValid own (some expected) r c v =
      elim (Bool-cases (Steps.same_digest own expected)) [
        | inl e ↦ rw e (transition_then_close-IsValid r.sink r c v)
        | inr e ↦ rw e (refuse_digest-IsValid r v)
      ]

  hashed-IsValid :
      (stage : Stage R) (r : ReceiveTransfer S R)
      → r.stage ≡ stage
      → IsValid r
      → IsValid (Steps.finish_hashing sink stage r)
  unfolding Steps.finish_hashing
  hashed-IsValid (hashing own) r e v =
      compare_digest-IsValid own r.expected_digest r (v.claims.claimed (λ rest. cc)) v
  hashed-IsValid _ r e v = v

  closed-SameChunks : (r : ReceiveTransfer S R) → SameChunks r (Steps.closed sink r)
  unfolding Steps.closed
  closed-SameChunks r = ground arith

  closed-IsClaimed : {r : ReceiveTransfer S R} → IsClaimed r → IsClaimed (Steps.closed sink r)
  unfolding Steps.closed
  closed-IsClaimed {r} c = ground arith

  module _ (sha : List ℕ → List ℕ) where
    start_digest-IsValid :
        (digest : Option Sha256Digest) (expected : Option (List ℕ)) (r : ReceiveTransfer S R)
        → r.completing ≡ true
        → IsValid r
        → IsValid (Steps.start_digest sink sha digest expected r)
    unfolding Steps.start_digest
    start_digest-IsValid none expected r c v = transition_then_close-IsValid r.sink r c v
    start_digest-IsValid (some d) none r c v = refuse_digest-IsValid r v
    start_digest-IsValid (some d) (some expected) r c v = at_stage-IsValid _ {r = r} (λ h. c) v

    drained-IsValid :
        (stage : Stage R) (r : ReceiveTransfer S R)
        → r.stage ≡ stage
        → IsValid r
        → IsValid (Steps.drain_stage sink sha stage r)
    unfolding Steps.drain_stage
    drained-IsValid draining r e v = elim (Bool-cases (is_terminal r.base)) [
      | inl over ↦ rw over (at_stage-IsValid resting {r = r} (λ h. absurd (h refl)) v)
      | inr live ↦
          rw live
            (start_digest-IsValid r.digest r.expected_digest r (v.claims.claimed (λ rest. cc)) v)
    ]
    drained-IsValid _ r e v = v

    -- Whatever the application, the sender and the event loop do, in whatever order, the chunk set stays
    -- free of duplicates, within the announced range and counted by the progress, and completion is
    -- claimed only when the set is full.
    pub Step-IsValid : {r r' : ReceiveTransfer S R} → Step sink sha r r' → IsValid r → IsValid r'
    unfolding Steps.frame_arrived Steps.drained Steps.hashed
    Step-IsValid (Step.accepts r s) v = Kept-IsValid (accept-Kept sink s r) v
    Step-IsValid (Step.opens r) v = Kept-IsValid (sink_opened-Kept sink r) v
    Step-IsValid (Step.rejects r why) v = Kept-IsValid (reject-Kept sink why r) v
    Step-IsValid (Step.attaches r channel) v = Kept-IsValid (attach_channel-Kept channel r) v
    Step-IsValid (Step.asks r) v = Kept-IsValid (request_resume-Kept r) v
    Step-IsValid (Step.controls r m) v = handle_control-IsValid m v
    Step-IsValid (Step.pauses r) v = Kept-IsValid (pause-Kept sink r) v
    Step-IsValid (Step.resumes r) v = Kept-IsValid (resume-Kept sink r) v
    Step-IsValid (Step.cancels r why) v = Kept-IsValid (cancel-Kept sink why r) v
    Step-IsValid (Step.messages r bytes) v = Kept-IsValid (message-Kept bytes r) v
    Step-IsValid (Step.frames r) v = take_frame-IsValid r.arriving r v
    Step-IsValid (Step.starts r) v = Kept-IsValid (start_write-Kept sink r) v
    Step-IsValid (Step.finishes r) v = Kept-IsValid (finish_write-Kept sink sha r) v
    Step-IsValid (Step.drains r _ _) v = drained-IsValid r.stage r refl v
    Step-IsValid (Step.hashes r) v = hashed-IsValid r.stage r refl v
    Step-IsValid (Step.closes r) v =
        SameChunks-IsValid (closed-SameChunks r) (closed-IsClaimed v.claims) v

    pub Reach-IsValid : {r r' : ReceiveTransfer S R} → IsValid r → Reach sink sha r r' → IsValid r'
    Reach-IsValid v Reach.here = v
    Reach-IsValid v (Reach.next path step) = Step-IsValid step (Reach-IsValid v path)
