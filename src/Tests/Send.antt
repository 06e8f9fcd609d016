-- ===== src/Tests/Send.antt =====
-- A file of one byte whose only chunk has left when the user has paused the transfer.
use rtcforge.Prelude.{
  OnSome, ℕ, Bool, true, false, List, [], ◌∷◌, Option, none, some, ◌≡◌, ◌≢◌, refl, subst, ◌⊎◌,
  arith, number_key,
}
use rtcforge.Map.{contains}
use rtcforge.Sdk.FileTransfer.Protocol.{ControlMessage}
use rtcforge.Sdk.FileTransfer.Transfer.{TransferState, FileMetadata, new_transfer}
use rtcforge.Sdk.FileTransfer.SendTransfer.Defs.{
  DataChannel, Phase, opening, passing, reading, draining, finished, Worker, Run, SendTransfer,
  new_send, start, resume, handle_control,
}
use rtcforge.Sdk.FileTransfer.SendTransfer.Workers.{
  announce, finish_run, all_finished, continue_worker,
}
use rtcforge.Sdk.FileTransfer.SendTransfer.Steps.{Reach, starts, resumes, hears, continues}
use rtcforge.Sdk.FileTransfer.Framing.{encode_frame}
use rtcforge.Sdk.FileTransfer.SendTransfer.Covered.{Ledger}
use rtcforge.Sdk.FileTransfer.SendTransfer.Complete.{sent_is_complete}
use rtcforge.Sdk.FileTransfer.SendTransfer.Unfinished.{paused_send_never_completes}

abbrev wire : DataChannel Bool
wire = record {
  is_open = λ c. c;
  buffered_amount = λ c. 0;
  send_bytes = λ bytes c. (c, false);
  close_channel = λ c. false;
}

abbrev slice : ℕ → ℕ → Option (List ℕ)
slice offset size = some (7 ∷ [])

abbrev identity : List ℕ → List ℕ
identity bytes = bytes

abbrev one_byte : FileMetadata
one_byte = record { name = "f"; mime_type = ""; size = 1 }

abbrev ended : Run
ended = record {
  have_chunks = [];
  digest = none;
  workers = record { index = 0; seq = 1; phase = finished } ∷ [];
  settled = false;
}

abbrev fresh : SendTransfer Bool
fresh = new_send "t" "p" one_byte (true ∷ []) 1 100 false false 0

abbrev paused_send : SendTransfer Bool
paused_send = record fresh {
  base = record (new_transfer "t" "p" one_byte 1 1) {
    state = TransferState.paused;
    transferred_chunks = 1;
    transferred_bytes = 1;
  };
  sent_seqs = 0 ∷ [];
  run = some ended;
}

abbrev announced : SendTransfer Bool
announced = finish_run wire slice identity ended paused_send

abbrev answered : SendTransfer Bool
answered = handle_control wire (ControlMessage.complete "t") (resume wire announced)

paused_send_never_completes_example : answered.base.state ≢ TransferState.completed
unfolding new_send all_finished announce finish_run
paused_send_never_completes_example =
    paused_send_never_completes wire slice identity (λ c d. c ≡ d) none
      (record paused_send { run = some (record ended { settled = true }) }) answered refl refl refl
      refl (Reach.next (Reach.next Reach.here resumes) (hears (ControlMessage.complete "t")))

-- A channel that keeps the frames it took.
abbrev Log : Type 0
Log = Bool × List (List ℕ)

abbrev Took : ℕ → Log → Type 0
Took seq c = (bytes : List ℕ) × OnSome (λ frame. frame ≡ encode_frame seq bytes) c.1

abbrev Kept : Log → Log → Type 0
Kept c d = c.1 ≡ d.1

abbrev log : DataChannel Log
log = record {
  is_open = λ c. c.0;
  buffered_amount = λ c. 0;
  send_bytes = λ bytes c. ((c.0, bytes ∷ c.1), false);
  close_channel = λ c. (false, c.1);
}

abbrev log_ledger : Ledger log Kept
log_ledger = record {
  Carried = Took;
  takes = λ seq bytes c open' fine. (bytes, OnSome.this refl);
  keeps = λ seq bytes c taken. (taken.0, OnSome.other taken.1);
  lasts = λ seq c d same taken.
      (taken.0, subst (OnSome (λ frame. frame ≡ encode_frame seq taken.0)) same taken.1);
}

abbrev two_bytes : FileMetadata
two_bytes = record { name = "f"; mime_type = ""; size = 2 }

abbrev made : SendTransfer Log
made = new_send "t" "p" two_bytes ((true, []) ∷ []) 1 100 false false 0

-- The receiver has the first chunk.
abbrev taken_up : SendTransfer Log
taken_up = handle_control log (ControlMessage.accept "t" (some (0 ∷ []))) (start log made)

abbrev worker_at : ℕ → Phase → Worker
worker_at seq phase = record { index = 0; seq = seq; phase = phase }

abbrev at_run : ℕ → Phase → Run
at_run seq phase = record {
  have_chunks = 0 ∷ [];
  digest = none;
  workers = worker_at seq phase ∷ [];
  settled = false;
}

abbrev go_on : ℕ → Phase → SendTransfer Log → SendTransfer Log
go_on seq phase s = continue_worker log slice identity (worker_at seq phase) (at_run seq phase) s

abbrev all_sent : SendTransfer Log
all_sent =
    go_on 1 (draining (7 ∷ []))
      (go_on 1 reading (go_on 1 passing (go_on 0 passing (go_on 0 opening taken_up))))

sent_is_complete_example : (contains {K = ℕ} 1 (0 ∷ []) ≡ true) ⊎ OnSome (Took 1) all_sent.channels
unfolding new_send start handle_control continue_worker all_finished contains
sent_is_complete_example =
    sent_is_complete log Kept log_ledger slice identity "t" "p" two_bytes ((true, []) ∷ []) 1 100
      false false 0 all_sent (at_run 2 finished) 1
      (Reach.next
        (Reach.next
          (Reach.next
            (Reach.next
              (Reach.next
                (Reach.next (Reach.next Reach.here starts)
                  (hears (ControlMessage.accept "t" (some (0 ∷ [])))))
                (continues (worker_at 0 opening) (at_run 0 opening) refl refl))
              (continues (worker_at 0 passing) (at_run 0 passing) refl refl))
            (continues (worker_at 1 passing) (at_run 1 passing) refl refl))
          (continues (worker_at 1 reading) (at_run 1 reading) refl refl))
        (continues (worker_at 1 (draining (7 ∷ []))) (at_run 1 (draining (7 ∷ []))) refl refl))
      refl refl (omega arith) (omega arith)
