-- ===== src/Sdk/FileTransfer/SendTransfer/Defs.antt =====
-- SendTransfer.ts: the state and the methods.
-- A run whose generation is over does nothing that can be seen any more: the state holds the current
-- run only, and a change of generation replaces it.
use rtcforge.Prelude.{
  ℕ, zero, suc, ◌+◌, ◌-◌, ◌/◌, Bool, true, false, not, ◌&&◌, ◌||◌, List, [], ◌∷◌, ◌++◌, Option,
  none, some, String, ltb, if◌then◌else◌, length, number_key,
}
use rtcforge.Sdk.FileTransfer.Checksum.{Sha256Digest, new_digest}
use rtcforge.Sdk.FileTransfer.Protocol.{ControlMessage, Reason, failure}
use rtcforge.Sdk.FileTransfer.Transfer.{
  Transfer, TransferState, FileMetadata, FileTransferErrorCode, TransferEvent, same_state,
  is_terminal, emit, enter, new_transfer, transition_by,
}
use rtcforge.Sdk.FileTransfer.Transfer.{
  was_cancelled, offer_rejected, checksum_mismatch, channel_closed, timeout,
}

-- The browser's data channel: `send` says whether it throws.
pub record DataChannel (C : Type 0) : Type 0 where
  pub is_open : C → Bool
  pub buffered_amount : C → ℕ
  pub send_bytes : List ℕ → C → C × Bool
  pub close_channel : C → C

-- Where a worker waits: for its channel to open, at the pause gate (parked, or let through), for the
-- source, for the digest of a chunk, or for the buffer to drain. It has ended or failed otherwise.
pub data Phase : Type 0 where
  opening parked passing reading : Phase
  digesting : List ℕ → Phase
  draining : List ℕ → Phase
  finished broken : Phase

pub record Worker : Type 0 where
  pub index : ℕ
  pub seq : ℕ
  pub phase : Phase

-- `settled` once its `Promise.all` has rejected, or its end has been reached.
pub record Run : Type 0 where
  pub have_chunks : List ℕ
  pub digest : Option Sha256Digest
  pub workers : List Worker
  pub settled : Bool

-- `finalizing` are the digests that ended runs wait for, each to announce that everything is sent.
pub record SendTransfer (C : Type 0) : Type 0 where
  pub base : Transfer
  pub channels : List C
  pub high_water_mark : ℕ
  pub checksum : Bool
  pub resumable : Bool
  pub offer_timeout_ms : ℕ
  pub offer_timer : Bool
  pub interrupted : Bool
  pub pending_pause : Bool
  pub sent_seqs : List ℕ
  pub run : Option Run
  pub finalizing : List Sha256Digest
  pub link_up : Bool
  pub source_closed : Bool
  pub outbox : List ControlMessage

-- `Math.ceil(size / chunkSize)`
abbrev pub chunks_of : ℕ → ℕ → ℕ
chunks_of size chunk_size = (size + (chunk_size - 1)) / chunk_size

abbrev pub release : Worker → Worker
release w = elim w.phase [
  | opening ↦ w
  | parked ↦ record w { phase = passing }
  | passing ↦ w
  | reading ↦ w
  | digesting bytes ↦ w
  | draining bytes ↦ w
  | finished ↦ w
  | broken ↦ w
]

unfoldable pub release_all : List Worker → List Worker
release_all [] = []
release_all (w ∷ ws) = release w ∷ release_all ws

unfoldable pub release_run : Option Run → Option Run
unfolding release_all
release_run none = none
release_run (some r) = some (record r { workers = release_all r.workers })

-- A worker for each channel.
unfoldable pub new_workers : ℕ → ℕ → List Worker
new_workers index zero = []
new_workers index (suc n) =
    record { index = index; seq = index; phase = opening } ∷ new_workers (suc index) n

abbrev pub chunks_or_none : Option (List ℕ) → List ℕ
chunks_or_none none = []
chunks_or_none (some seqs) = seqs

module _ {C : Type 0} where
  unfoldable pub new_send :
      String → String → FileMetadata → List C → ℕ → ℕ → Bool → Bool → ℕ → SendTransfer C
  unfolding new_transfer
  new_send id peer_id metadata channels chunk_size high checksum resumable timeout_ms = record {
    base = new_transfer id peer_id metadata chunk_size (chunks_of metadata.size chunk_size);
    channels = channels;
    high_water_mark = high;
    checksum = checksum;
    resumable = resumable;
    offer_timeout_ms = timeout_ms;
    offer_timer = false;
    interrupted = false;
    pending_pause = false;
    sent_seqs = [];
    run = none;
    finalizing = [];
    link_up = true;
    source_closed = false;
    outbox = [];
  }

  unfoldable pub enter_in : TransferState → SendTransfer C → SendTransfer C
  unfolding enter
  enter_in next s = record s { base = enter next s.base }

  unfoldable pub emit_in : TransferEvent → SendTransfer C → SendTransfer C
  unfolding emit
  emit_in e s = record s { base = emit e s.base }

  unfoldable pub emit_reason : Option Reason → SendTransfer C → SendTransfer C
  unfolding emit_in
  emit_reason none s = s
  emit_reason (some reason) s = emit_in (TransferEvent.error was_cancelled) s

  module _ (dc : DataChannel C) where
    unfoldable pub close_all : List C → List C
    close_all [] = []
    close_all (c ∷ cs) = dc.close_channel c ∷ close_all cs

    -- `_onTerminal`
    unfoldable pub on_terminal : SendTransfer C → SendTransfer C
    unfolding close_all
    on_terminal s = record s {
      offer_timer = false;
      run = none;
      channels = close_all s.channels;
      source_closed = true;
    }

    unfoldable pub transition_to : TransferState → SendTransfer C → SendTransfer C × Bool
    unfolding transition_by enter_in on_terminal
    transition_to = transition_by (λ s. s.base) enter_in on_terminal

    -- `fail` that tells nobody.
    unfoldable pub fail_quietly : FileTransferErrorCode → SendTransfer C → SendTransfer C
    unfolding transition_to emit_in
    fail_quietly code s =
        if is_terminal s.base
        then s
        else emit_in (TransferEvent.error code) (transition_to TransferState.failed s).0

    -- `_safeControl`: the control link throws when it is down.
    unfoldable pub safe_control : ControlMessage → SendTransfer C → SendTransfer C
    unfolding fail_quietly
    safe_control m s =
        if s.link_up
        then record s { outbox = s.outbox ++ (m ∷ []) }
        else fail_quietly channel_closed s

    -- `fail` with `_notifyRemoteFailure`.
    unfoldable pub fail_loudly : FileTransferErrorCode → SendTransfer C → SendTransfer C
    unfolding transition_to emit_in safe_control
    fail_loudly code s =
        if is_terminal s.base
        then s
        else emit_in (TransferEvent.error code) (
            safe_control (ControlMessage.cancel s.base.id (some (failure code)))
              (transition_to TransferState.failed s).0)

    unfoldable pub send_offer : SendTransfer C → SendTransfer C
    unfolding safe_control
    send_offer s =
        safe_control
          (ControlMessage.offer s.base.id (record {
            version = some 1;
            name = s.base.metadata.name;
            mime_type = s.base.metadata.mime_type;
            size = s.base.metadata.size;
            chunk_size = s.base.chunk_size;
            total_chunks = s.base.total_chunks;
            parallel_channels = length s.channels;
            checksum = s.checksum;
          }))
          s

    unfoldable pub arm_offer_timeout : SendTransfer C → SendTransfer C
    arm_offer_timeout s = record s { offer_timer = ltb 0 s.offer_timeout_ms }

    unfoldable pub start : SendTransfer C → SendTransfer C
    unfolding transition_to send_offer arm_offer_timeout
    start s =
        let (offered, moved) = transition_to TransferState.offered s in
        let sent = send_offer offered in
        if not moved
        then s
        else if same_state sent.base.state TransferState.offered
        then arm_offer_timeout sent
        else sent

    -- `reoffer` with channels that are all new. Those of the old set are closed, which ends the workers
    -- that the interrupted run still has.
    unfoldable pub reoffer : List C → SendTransfer C → SendTransfer C
    unfolding send_offer arm_offer_timeout
    reoffer channels s =
        if is_terminal s.base || not s.interrupted
        then s
        else arm_offer_timeout (send_offer (record s { channels = channels; run = none }))

    -- The offer's timer fires.
    unfoldable pub offer_timed_out : SendTransfer C → SendTransfer C
    unfolding fail_loudly
    offer_timed_out s =
        let fired = record s { offer_timer = false } in
        let waiting =
          same_state s.base.state TransferState.offered
          || (s.interrupted && not (is_terminal s.base)) in
        if not s.offer_timer then s else if waiting then fail_loudly timeout fired else fired

    -- `_applyPause`
    unfoldable pub apply_pause : SendTransfer C → SendTransfer C × Bool
    unfolding transition_to
    apply_pause s =
        if same_state s.base.state TransferState.accepted
        then (record s { pending_pause = true }, true)
        else if not (same_state s.base.state TransferState.active)
        then (s, false)
        else transition_to TransferState.paused s

    -- `_applyResume`
    unfoldable pub apply_resume : SendTransfer C → SendTransfer C × Bool
    unfolding transition_to release_run
    apply_resume s =
        let (s', moved) = transition_to TransferState.active s in
        if same_state s.base.state TransferState.accepted && s.pending_pause
        then (record s { pending_pause = false }, true)
        else if not (same_state s.base.state TransferState.paused)
        then (s, false)
        else if not moved
        then (s', false)
        else (record s' { run = release_run s'.run }, true)

    unfoldable pub pause : SendTransfer C → SendTransfer C
    unfolding apply_pause safe_control
    pause s =
        let (s', did) = apply_pause s in
        if did then safe_control (ControlMessage.pause s.base.id) s' else s'

    unfoldable pub resume : SendTransfer C → SendTransfer C
    unfolding apply_resume safe_control
    resume s =
        let (s', did) = apply_resume s in
        if did then safe_control (ControlMessage.resume s.base.id) s' else s'

    unfoldable pub mark_cancelled : Option Reason → SendTransfer C → SendTransfer C
    unfolding transition_to emit_reason
    mark_cancelled reason s =
        if is_terminal s.base
        then s
        else emit_reason reason
            (transition_to TransferState.cancelled (record s { offer_timer = false })).0

    unfoldable pub cancel : Option Reason → SendTransfer C → SendTransfer C
    unfolding mark_cancelled safe_control
    cancel reason s =
        if is_terminal s.base
        then s
        else mark_cancelled reason (safe_control (ControlMessage.cancel s.base.id reason) s)

    -- `_run` up to its `await`.
    unfoldable pub start_run : List ℕ → SendTransfer C → SendTransfer C
    unfolding transition_to new_workers
    start_run have s =
        let active =
          if same_state s.base.state TransferState.accepted
          then (transition_to TransferState.active s).0
          else s in
        let gated =
          if active.pending_pause
          then (transition_to TransferState.paused (record active { pending_pause = false })).0
          else active in
        if not (same_state active.base.state TransferState.active)
        then record active { run = none }
        else record gated {
          run = some (record {
            have_chunks = have;
            digest = if s.checksum then some new_digest else none;
            workers = new_workers 0 (length s.channels);
            settled = false;
          });
        }

    -- `_begin`
    unfoldable pub begin_run : List ℕ → SendTransfer C → SendTransfer C
    unfolding transition_to apply_resume start_run
    begin_run have s =
        let idle = record s { offer_timer = false } in
        let (fresh, taken) = transition_to TransferState.accepted idle in
        let (again, resumed) = apply_resume (record idle { interrupted = false }) in
        if same_state s.base.state TransferState.offered
        then (if not taken then fresh else start_run have fresh)
        else if same_state s.base.state TransferState.paused && s.interrupted
        then (if not resumed then again else start_run have again)
        else idle

    unfoldable pub completed_by_peer : SendTransfer C → SendTransfer C
    unfolding transition_to emit_in
    completed_by_peer s =
        let (s', did) = transition_to TransferState.completed s in
        if did then emit_in TransferEvent.complete s' else s'

    -- `handleControl`
    unfoldable pub handle_control : ControlMessage → SendTransfer C → SendTransfer C
    unfolding begin_run fail_quietly completed_by_peer apply_pause apply_resume mark_cancelled
    handle_control (ControlMessage.accept id have) s =
        begin_run (chunks_or_none have) (record s { offer_timer = false })
    handle_control (ControlMessage.resume_request id have) s =
        begin_run have (record s { offer_timer = false })
    handle_control (ControlMessage.reject id reason) s =
        fail_quietly offer_rejected (record s { offer_timer = false })
    handle_control (ControlMessage.complete id) s =
        completed_by_peer (record s { offer_timer = false })
    handle_control (ControlMessage.checksum_mismatch id) s =
        fail_quietly checksum_mismatch (record s { offer_timer = false })
    handle_control (ControlMessage.pause id) s = (apply_pause (record s { offer_timer = false })).0
    handle_control (ControlMessage.resume id) s =
        (apply_resume (record s { offer_timer = false })).0
    handle_control (ControlMessage.cancel id reason) s =
        mark_cancelled reason (record s { offer_timer = false })
    handle_control _ s = record s { offer_timer = false }
