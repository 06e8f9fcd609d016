-- ===== src/Tests/Receive.antt =====
-- One chunk received from the offer to the end, and the same receive paused at the end.
use rtcforge.Map.{contains}
use rtcforge.Prelude.{
  ℕ, suc, ◌<◌, true, false, List, [], ◌∷◌, none, some, ◌≡◌, ◌≢◌, refl, length, number_key,
}
use rtcforge.Sdk.FileTransfer.Framing.{encode_frame, decode_frame}
use rtcforge.Sdk.FileTransfer.Protocol.{ControlMessage}
use rtcforge.Sdk.FileTransfer.Transfer.{TransferState, FileMetadata}
use rtcforge.Sdk.FileTransfer.ReceiveTransfer.Defs.{
  StorageSink, ReceiveTransfer, new_receive, accept, sink_opened, handle_control, pause, resume,
}
use rtcforge.Sdk.FileTransfer.ReceiveTransfer.Steps.{
  message, frame_arrived, start_write, drained, closed, Step, Reach, transition_then_close,
}
use rtcforge.Sdk.FileTransfer.ReceiveTransfer.Invariant.{IsValid}
use rtcforge.Sdk.FileTransfer.ReceiveTransfer.Completion.{Reach-IsValid, new_receive-IsValid}
use rtcforge.Sdk.FileTransfer.ReceiveTransfer.Outcome.{completed_receive}
use rtcforge.Sdk.FileTransfer.ReceiveTransfer.Stuck.{paused_never_completes}

-- A sink that counts its writes.
abbrev counter : StorageSink ℕ ℕ
counter = record {
  open_sink = λ m n. (n, true);
  write = λ offset bytes n. (suc n, true);
  close = λ n. (n, some n);
  abort = λ n. n;
}

abbrev identity : List ℕ → List ℕ
identity bytes = bytes

abbrev one_byte : FileMetadata
one_byte = record { name = "f"; mime_type = ""; size = 1 }

abbrev offered : ReceiveTransfer ℕ ℕ
offered = new_receive counter "t" "p" one_byte 1 1 false

abbrev opened : ReceiveTransfer ℕ ℕ
opened = sink_opened counter (accept counter 0 offered)

abbrev framed : ReceiveTransfer ℕ ℕ
framed = frame_arrived counter (message (encode_frame 0 (7 ∷ [])) opened)

abbrev claimed : ReceiveTransfer ℕ ℕ
claimed = handle_control counter (ControlMessage.sent "t" none) (start_write counter framed)

abbrev finished : ReceiveTransfer ℕ ℕ
finished = closed counter (drained counter identity claimed)

framed-Reach : Reach counter identity offered framed
framed-Reach =
    Reach.next
      (Reach.next
        (Reach.next (Reach.next Reach.here (Step.accepts offered 0))
          (Step.opens (accept counter 0 offered)))
        (Step.messages opened (encode_frame 0 (7 ∷ []))))
      (Step.frames (message (encode_frame 0 (7 ∷ [])) opened))

claimed-Reach : Reach counter identity offered claimed
claimed-Reach =
    Reach.next (Reach.next framed-Reach (Step.starts framed))
      (Step.controls (start_write counter framed) (ControlMessage.sent "t" none))

claimed_written : (claimed.write_chain ≡ []) × (claimed.in_flight ≡ none)
unfolding new_receive accept sink_opened message frame_arrived start_write handle_control
    encode_frame decode_frame contains
claimed_written = (refl, refl)

finished-Reach : Reach counter identity offered finished
finished-Reach =
    Reach.next (Reach.next claimed-Reach (Step.drains claimed claimed_written.0 claimed_written.1))
      (Step.closes (drained counter identity claimed))

finished_completed : finished.base.state ≡ TransferState.completed
unfolding new_receive accept sink_opened message frame_arrived start_write handle_control drained
    closed encode_frame decode_frame contains
finished_completed = refl

completed_receive_example :
    (length finished.received ≡ finished.base.total_chunks)
    × (finished.base.transferred_chunks ≡ finished.base.total_chunks)
    × ((seq : ℕ) → seq < finished.base.total_chunks → contains seq finished.received ≡ true)
completed_receive_example =
    completed_receive counter identity "t" "p" one_byte 1 1 false finished finished-Reach
      finished_completed

Reach-IsValid_example : IsValid finished
Reach-IsValid_example =
    Reach-IsValid counter identity (new_receive-IsValid counter "t" "p" one_byte 1 1 false)
      finished-Reach

abbrev paused_late : ReceiveTransfer ℕ ℕ
paused_late = pause counter claimed

abbrev resumed : ReceiveTransfer ℕ ℕ
resumed = resume counter (transition_then_close counter (some 1) paused_late)

resumed-Reach : Reach counter identity (transition_then_close counter (some 1) paused_late) resumed
resumed-Reach =
    Reach.next Reach.here (Step.resumes (transition_then_close counter (some 1) paused_late))

paused_late_paused : paused_late.base.state ≡ TransferState.paused
unfolding new_receive accept sink_opened message frame_arrived start_write handle_control pause
    encode_frame decode_frame contains
paused_late_paused = refl

paused_late_claimed : paused_late.completing ≡ true
unfolding new_receive accept sink_opened message frame_arrived start_write handle_control pause
    encode_frame decode_frame contains
paused_late_claimed = refl

paused_never_completes_example : resumed.base.state ≢ TransferState.completed
paused_never_completes_example =
    paused_never_completes counter identity paused_late resumed 1 paused_late_paused
      paused_late_claimed resumed-Reach
