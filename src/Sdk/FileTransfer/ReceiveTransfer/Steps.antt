-- ===== src/Sdk/FileTransfer/ReceiveTransfer/Steps.antt =====
-- ReceiveTransfer.ts: the frames that arrive, the write chain, what follows each `await`, and the
-- interleavings of all this as a step relation.
use rtcforge.Prelude.{
  ℕ, ◌+◌, ◌*◌, Bool, true, false, not, ◌&&◌, ◌||◌, List, [], ◌∷◌, ◌++◌, Option, none, some, ltb,
  leb, ◌===◌, if◌then◌else◌, length, text_key, number_key, ◌≡◌,
}
use rtcforge.Map.{contains}
use rtcforge.Sdk.FileTransfer.Framing.{DecodedFrame, decode_frame}
use rtcforge.Sdk.FileTransfer.Checksum.{Sha256Digest, update, finalize}
use rtcforge.Sdk.FileTransfer.Protocol.{ControlMessage, Reason}
use rtcforge.Sdk.FileTransfer.Transfer.{
  TransferState, TransferEvent, is_terminal, emit_progress, sink_write_failed, checksum_mismatch,
  invalid_frame,
}
use rtcforge.Sdk.FileTransfer.ReceiveTransfer.Defs.{
  StorageSink, Stage, resting, draining, hashing, closing, ReceiveTransfer, send_control,
  abort_sink, transition_to, emit_in, fail, accept, sink_opened, reject, attach_channel,
  request_resume, try_complete, handle_control, pause, resume, cancel, has_sink,
}

-- Texts that are equal code by code.
unfoldable pub same_digest : List ℕ → List ℕ → Bool
same_digest [] [] = true
same_digest (a ∷ as') (b ∷ bs) = a === b && same_digest as' bs
same_digest _ _ = false

module _ {S R : Type 0} where
  -- `_onMessage` up to `await toArrayBuffer(data)`.
  unfoldable pub message : List ℕ → ReceiveTransfer S R → ReceiveTransfer S R
  message bytes r =
      if is_terminal r.base || not (has_sink r.sink)
      then r
      else record r { arriving = r.arriving ++ (bytes ∷ []) }

  -- A frame that passed the checks: `_onMessage` from `this._received.add(seq)` on.
  unfoldable pub accept_chunk : ℕ → List ℕ → ReceiveTransfer S R → ReceiveTransfer S R
  unfolding emit_progress try_complete
  accept_chunk seq bytes r =
      let counted = record (r.base) {
        transferred_chunks = r.base.transferred_chunks + 1;
        transferred_bytes = r.base.transferred_bytes + length bytes;
      } in
      try_complete (record r {
        base = emit_progress counted;
        received = r.received ++ (seq ∷ []);
        write_chain = r.write_chain ++ ((seq, bytes) ∷ []);
      })

module _ {S R : Type 0} (sink : StorageSink S R) where
  -- The checks on a decoded frame.
  unfoldable pub check_frame : DecodedFrame → ReceiveTransfer S R → ReceiveTransfer S R
  unfolding fail accept_chunk
  check_frame f r =
      if leb r.base.total_chunks f.seq
      then fail sink invalid_frame true r
      else if ltb r.base.chunk_size (length f.payload)
      then fail sink invalid_frame true r
      else if ltb r.base.metadata.size (f.seq * r.base.chunk_size + length f.payload)
      then fail sink invalid_frame true r
      else if contains f.seq r.received
      then r
      else accept_chunk f.seq f.payload r

  unfoldable pub on_frame : Option DecodedFrame → ReceiveTransfer S R → ReceiveTransfer S R
  unfolding fail check_frame
  on_frame none r = fail sink invalid_frame true r
  on_frame (some f) r = check_frame f r

  unfoldable pub take_frame : List (List ℕ) → ReceiveTransfer S R → ReceiveTransfer S R
  unfolding on_frame decode_frame
  take_frame [] r = r
  take_frame (bytes ∷ rest) r = on_frame (decode_frame bytes) (record r { arriving = rest })

  -- `_onMessage` from `await toArrayBuffer(data)` on, for the oldest frame.
  unfoldable pub frame_arrived : ReceiveTransfer S R → ReceiveTransfer S R
  unfolding take_frame
  frame_arrived r = take_frame r.arriving r

  unfoldable pub write_to : ℕ → List ℕ → Option S → ReceiveTransfer S R → ReceiveTransfer S R
  unfolding fail abort_sink
  write_to seq bytes none r = r
  write_to seq bytes (some s) r =
      let (s', resolves) = sink.write (seq * r.base.chunk_size) bytes s in
      let written = record r { sink = some s' } in
      if resolves then written else abort_sink sink (fail sink sink_write_failed true written)

  unfoldable pub start_first :
      Option (ℕ × List ℕ) → List (ℕ × List ℕ) → ReceiveTransfer S R → ReceiveTransfer S R
  unfolding write_to
  start_first none ((seq, bytes) ∷ rest) r =
      if is_terminal r.base then record r { write_chain = rest } else elim r.digest [
        | none ↦ write_to seq bytes r.sink (record r { write_chain = rest })
        | some d ↦ record r { write_chain = rest; in_flight = some (seq, bytes) }
      ]
  start_first _ _ r = r

  -- The next write of the chain starts: `_enqueueChunk`'s callback, up to the digest's `await`.
  unfoldable pub start_write : ReceiveTransfer S R → ReceiveTransfer S R
  unfolding start_first
  start_write r = start_first r.in_flight r.write_chain r

  unfoldable pub transition_then_close : Option S → ReceiveTransfer S R → ReceiveTransfer S R
  unfolding transition_to
  transition_then_close none r = record r { stage = resting }
  transition_then_close (some s) r =
      let r' = (transition_to sink TransferState.completing r).0 in
      let (s', outcome) = sink.close s in record r' { sink = some s'; stage = closing outcome }

  unfoldable pub finish_closing : Stage R → ReceiveTransfer S R → ReceiveTransfer S R
  unfolding fail transition_to send_control emit_in
  finish_closing (closing none) r = fail sink sink_write_failed true (record r { stage = resting })
  finish_closing (closing (some value)) r =
      let done = record r { result = some value; sink_finalized = true; stage = resting } in
      let told = send_control (ControlMessage.complete r.base.id) done in
      let (r', moved) = transition_to sink TransferState.completed told in
      if moved then emit_in TransferEvent.complete r' else r'
  finish_closing _ r = r

  -- `_tryComplete` after `await this._sink.close()`.
  unfoldable pub closed : ReceiveTransfer S R → ReceiveTransfer S R
  unfolding finish_closing
  closed r = finish_closing r.stage r

  -- The digest does not match, or none was sent.
  unfoldable pub refuse_digest : ReceiveTransfer S R → ReceiveTransfer S R
  unfolding send_control abort_sink fail
  refuse_digest r = fail sink checksum_mismatch false (
      abort_sink sink
        (send_control (ControlMessage.checksum_mismatch r.base.id) (record r { stage = resting })))

  unfoldable pub compare_digest :
      List ℕ → Option (List ℕ) → ReceiveTransfer S R → ReceiveTransfer S R
  unfolding refuse_digest transition_then_close same_digest
  compare_digest own none r = refuse_digest r
  compare_digest own (some expected) r =
      if same_digest own expected then transition_then_close r.sink r else refuse_digest r

  unfoldable pub finish_hashing : Stage R → ReceiveTransfer S R → ReceiveTransfer S R
  unfolding compare_digest
  finish_hashing (hashing own) r = compare_digest own r.expected_digest r
  finish_hashing _ r = r

  -- `_tryComplete` after `await this._digest.finalize()`.
  unfoldable pub hashed : ReceiveTransfer S R → ReceiveTransfer S R
  unfolding finish_hashing
  hashed r = finish_hashing r.stage r

  module _ (sha : List ℕ → List ℕ) where
    unfoldable pub record_digest : ℕ → List ℕ → Option Sha256Digest → Option Sha256Digest
    record_digest seq bytes none = none
    record_digest seq bytes (some d) = some (update sha seq bytes d)

    unfoldable pub finish_first : Option (ℕ × List ℕ) → ReceiveTransfer S R → ReceiveTransfer S R
    unfolding write_to record_digest update
    finish_first none r = r
    finish_first (some (seq, bytes)) r =
        write_to seq bytes r.sink
          (record r { in_flight = none; digest = record_digest seq bytes r.digest })

    -- The chunk's digest is there: it is recorded, and the chunk is written.
    unfoldable pub finish_write : ReceiveTransfer S R → ReceiveTransfer S R
    unfolding finish_first
    finish_write r = finish_first r.in_flight r

    unfoldable pub start_digest :
        Option Sha256Digest → Option (List ℕ) → ReceiveTransfer S R → ReceiveTransfer S R
    unfolding refuse_digest transition_then_close finalize
    start_digest none expected r = transition_then_close r.sink r
    start_digest (some d) none r = refuse_digest r
    start_digest (some d) (some expected) r = record r { stage = hashing (finalize sha d) }

    unfoldable pub drain_stage : Stage R → ReceiveTransfer S R → ReceiveTransfer S R
    unfolding start_digest
    drain_stage draining r =
        if is_terminal r.base
        then record r { stage = resting }
        else start_digest r.digest r.expected_digest r
    drain_stage _ r = r

    -- `_tryComplete` after `await this._writeChain`: every write that was queued is done.
    unfoldable pub drained : ReceiveTransfer S R → ReceiveTransfer S R
    unfolding drain_stage
    drained r = drain_stage r.stage r

    -- One turn of the event loop.
    pub data Step : ReceiveTransfer S R → ReceiveTransfer S R → Type 0 where
      accepts : (r : ReceiveTransfer S R) (s : S) → Step r (accept sink s r)
      opens : (r : ReceiveTransfer S R) → Step r (sink_opened sink r)
      rejects : (r : ReceiveTransfer S R) (why : Option Reason) → Step r (reject sink why r)
      attaches : (r : ReceiveTransfer S R) (channel : ℕ) → Step r (attach_channel channel r)
      asks : (r : ReceiveTransfer S R) → Step r (request_resume r)
      controls : (r : ReceiveTransfer S R) (m : ControlMessage) → Step r (handle_control sink m r)
      pauses : (r : ReceiveTransfer S R) → Step r (pause sink r)
      resumes : (r : ReceiveTransfer S R) → Step r (resume sink r)
      cancels : (r : ReceiveTransfer S R) (why : Option Reason) → Step r (cancel sink why r)
      messages : (r : ReceiveTransfer S R) (bytes : List ℕ) → Step r (message bytes r)
      frames : (r : ReceiveTransfer S R) → Step r (frame_arrived r)
      starts : (r : ReceiveTransfer S R) → Step r (start_write r)
      finishes : (r : ReceiveTransfer S R) → Step r (finish_write r)
      drains :
          (r : ReceiveTransfer S R) → r.write_chain ≡ [] → r.in_flight ≡ none → Step r (drained r)
      hashes : (r : ReceiveTransfer S R) → Step r (hashed r)
      closes : (r : ReceiveTransfer S R) → Step r (closed r)

    pub data Reach (r : ReceiveTransfer S R) : ReceiveTransfer S R → Type 0 where
      here : Reach r r
      next : {s t : ReceiveTransfer S R} → Reach r s → Step s t → Reach r t
