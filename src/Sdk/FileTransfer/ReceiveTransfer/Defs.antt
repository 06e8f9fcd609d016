-- ===== src/Sdk/FileTransfer/ReceiveTransfer/Defs.antt =====
-- ReceiveTransfer.ts: the state and the methods.
use rtcforge.Prelude.{
  ℕ, Bool, true, false, not, ◌||◌, List, [], ◌∷◌, ◌++◌, Option, none, some, String, ltb,
  if◌then◌else◌, length, text_key, number_key,
}
use rtcforge.Map.{contains}
use rtcforge.Sdk.FileTransfer.Checksum.{Sha256Digest, new_digest}
use rtcforge.Sdk.FileTransfer.Protocol.{ControlMessage, Reason, failure}
use rtcforge.Sdk.FileTransfer.Transfer.{
  Transfer, TransferState, FileMetadata, FileTransferErrorCode, TransferEvent, same_state,
  is_terminal, emit, enter, new_transfer, transition_by,
}
use rtcforge.Sdk.FileTransfer.Transfer.{sink_write_failed, was_cancelled, invalid_state}

-- The application's `StorageSink`. An operation gives the sink afterwards, and whether its promise
-- resolves; `close` resolves to a result.
pub record StorageSink (S R : Type 0) : Type 0 where
  pub open_sink : FileMetadata → S → S × Bool
  pub write : ℕ → List ℕ → S → S × Bool
  pub close : S → S × Option R
  pub abort : S → S

-- Where the run of `_tryComplete` that claimed completion waits: for nothing, for the write chain, for
-- the local digest (which is known by then), or for `sink.close`.
pub data Stage (R : Type 0) : Type 0 where
  resting : Stage R
  draining : Stage R
  hashing : List ℕ → Stage R
  closing : Option R → Stage R

pub record ReceiveTransfer (S R : Type 0) : Type 0 where
  pub base : Transfer
  pub checksum : Bool
  pub received : List ℕ
  pub channels : List ℕ
  pub sink : Option S
  pub digest : Option Sha256Digest
  pub expected_digest : Option (List ℕ)
  pub sender_done : Bool
  pub opening : Option Bool
  pub arriving : List (List ℕ)
  pub write_chain : List (ℕ × List ℕ)
  pub in_flight : Option (ℕ × List ℕ)
  pub result : Option R
  pub sink_finalized : Bool
  pub completing : Bool
  pub stage : Stage R
  pub outbox : List ControlMessage

abbrev pub has_sink : {S : Type 0} → Option S → Bool
has_sink none = false
has_sink (some s) = true

module _ {S R : Type 0} where
  unfoldable pub send_control : ControlMessage → ReceiveTransfer S R → ReceiveTransfer S R
  send_control m r = record r { outbox = r.outbox ++ (m ∷ []) }

  unfoldable pub enter_in : TransferState → ReceiveTransfer S R → ReceiveTransfer S R
  unfolding enter
  enter_in next r = record r { base = enter next r.base }

  unfoldable pub emit_in : TransferEvent → ReceiveTransfer S R → ReceiveTransfer S R
  unfolding emit
  emit_in e r = record r { base = emit e r.base }

  unfoldable pub emit_reason : Option Reason → ReceiveTransfer S R → ReceiveTransfer S R
  unfolding emit_in
  emit_reason none r = r
  emit_reason (some reason) r = emit_in (TransferEvent.error was_cancelled) r

  unfoldable pub request_resume : ReceiveTransfer S R → ReceiveTransfer S R
  unfolding send_control
  request_resume r =
      if is_terminal r.base
        || same_state r.base.state TransferState.offered
        || not (has_sink r.sink)
      then r
      else send_control (ControlMessage.resume_request r.base.id r.received) r

  unfoldable pub attach_channel : ℕ → ReceiveTransfer S R → ReceiveTransfer S R
  attach_channel channel r = record r {
    channels = if contains channel r.channels then r.channels else r.channels ++ (channel ∷ []);
  }

  -- `_tryComplete` up to its first `await`.
  unfoldable pub try_complete : ReceiveTransfer S R → ReceiveTransfer S R
  try_complete r =
      if is_terminal r.base || not (has_sink r.sink)
      then r
      else if not r.sender_done
      then r
      else if ltb (length r.received) r.base.total_chunks
      then r
      else if r.completing
      then r
      else record r { completing = true; stage = draining }

  -- The fields' initial values.
  unfoldable pub fresh : String → String → FileMetadata → ℕ → ℕ → Bool → ReceiveTransfer S R
  unfolding new_transfer
  fresh id peer_id metadata chunk_size total_chunks checksum = record {
    base = new_transfer id peer_id metadata chunk_size total_chunks;
    checksum = checksum;
    received = [];
    channels = [];
    sink = none;
    digest = none;
    expected_digest = none;
    sender_done = false;
    opening = none;
    arriving = [];
    write_chain = [];
    in_flight = none;
    result = none;
    sink_finalized = false;
    completing = false;
    stage = resting;
    outbox = [];
  }

module _ {S R : Type 0} (sink : StorageSink S R) where
  abort_open : Bool → Option S → ReceiveTransfer S R → ReceiveTransfer S R
  abort_open true s r = r
  abort_open false none r = r
  abort_open false (some s) r = record r { sink_finalized = true; sink = some (sink.abort s) }

  -- `_abortSink`: at most once.
  unfoldable pub abort_sink : ReceiveTransfer S R → ReceiveTransfer S R
  unfolding abort_open
  abort_sink r = abort_open r.sink_finalized r.sink r

  -- `_onTerminal`
  unfoldable pub on_terminal : ReceiveTransfer S R → ReceiveTransfer S R
  unfolding abort_sink
  on_terminal r =
      let r' = if same_state r.base.state TransferState.completed then r else abort_sink r in
      record r' { channels = [] }

  unfoldable pub transition_to : TransferState → ReceiveTransfer S R → ReceiveTransfer S R × Bool
  unfolding transition_by enter_in on_terminal
  transition_to = transition_by (λ r. r.base) enter_in on_terminal

  -- `fail`, with `_notifyRemoteFailure`.
  unfoldable pub fail : FileTransferErrorCode → Bool → ReceiveTransfer S R → ReceiveTransfer S R
  unfolding transition_to send_control emit_in
  fail code notify_remote r =
      if is_terminal r.base
      then r
      else let r' = (transition_to TransferState.failed r).0 in
        let told =
          if notify_remote
          then send_control (ControlMessage.cancel r.base.id (some (failure code))) r'
          else r' in
        emit_in (TransferEvent.error code) told

  unfoldable pub new_receive : String → String → FileMetadata → ℕ → ℕ → Bool → ReceiveTransfer S R
  unfolding fresh transition_to
  new_receive id peer_id metadata chunk_size total_chunks checksum =
      (transition_to TransferState.offered
        (fresh id peer_id metadata chunk_size total_chunks checksum)).0

  unfoldable pub accept : S → ReceiveTransfer S R → ReceiveTransfer S R
  unfolding fail transition_to
  accept s r =
      if not (same_state r.base.state TransferState.offered)
      then fail invalid_state false r
      else let (s', resolves) = sink.open_sink r.base.metadata s in
        let ready = record r {
          sink = some s';
          digest = if r.checksum then some new_digest else none;
        } in
        record (transition_to TransferState.accepted ready).0 { opening = some resolves }

  finish_opening : Option Bool → ReceiveTransfer S R → ReceiveTransfer S R
  unfolding fail transition_to send_control
  finish_opening none r = r
  finish_opening (some true) r =
      let r' = (transition_to TransferState.active (record r { opening = none })).0 in
      send_control (ControlMessage.accept r.base.id (some r.received)) r'
  finish_opening (some false) r = fail sink_write_failed true (record r { opening = none })

  -- What `accept` does when the promise of `sink.open` is settled.
  unfoldable pub sink_opened : ReceiveTransfer S R → ReceiveTransfer S R
  unfolding finish_opening
  sink_opened r = finish_opening r.opening r

  unfoldable pub reject : Option Reason → ReceiveTransfer S R → ReceiveTransfer S R
  unfolding send_control transition_to
  reject reason r =
      if same_state r.base.state TransferState.offered
      then (transition_to TransferState.cancelled
          (send_control (ControlMessage.reject r.base.id reason) r)).0
      else r

  unfoldable pub mark_cancelled : Option Reason → ReceiveTransfer S R → ReceiveTransfer S R
  unfolding transition_to emit_reason
  mark_cancelled reason r =
      if is_terminal r.base
      then r
      else emit_reason reason (transition_to TransferState.cancelled r).0

  unfoldable pub handle_control : ControlMessage → ReceiveTransfer S R → ReceiveTransfer S R
  unfolding try_complete mark_cancelled
  handle_control (ControlMessage.sent id digest) r =
      try_complete (record r { sender_done = true; expected_digest = digest })
  handle_control (ControlMessage.cancel id reason) r = mark_cancelled reason r
  handle_control _ r = r

  unfoldable pub pause : ReceiveTransfer S R → ReceiveTransfer S R
  unfolding transition_to send_control
  pause r =
      if same_state r.base.state TransferState.active
      then send_control (ControlMessage.pause r.base.id) (transition_to TransferState.paused r).0
      else r

  unfoldable pub resume : ReceiveTransfer S R → ReceiveTransfer S R
  unfolding transition_to send_control
  resume r =
      if same_state r.base.state TransferState.paused
      then send_control (ControlMessage.resume r.base.id) (transition_to TransferState.active r).0
      else r

  unfoldable pub cancel : Option Reason → ReceiveTransfer S R → ReceiveTransfer S R
  unfolding mark_cancelled send_control
  cancel reason r =
      if is_terminal r.base
      then r
      else mark_cancelled reason (send_control (ControlMessage.cancel r.base.id reason) r)
