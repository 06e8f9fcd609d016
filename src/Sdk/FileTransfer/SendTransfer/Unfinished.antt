-- ===== src/Sdk/FileTransfer/SendTransfer/Unfinished.antt =====
-- A transfer whose run settled while it was paused does not complete.
use rtcforge.Prelude.{
  ℕ, ◌*◌, true, false, not, ◌&&◌, List, [], Option, some, none, ◌≡◌, ◌≢◌, refl, sym, ap, subst, ◌∙◌,
  arith, if◌then◌else◌, get_elem?, number_key,
}
use rtcforge.Sdk.FileTransfer.Protocol.{ControlMessage}
use rtcforge.Sdk.FileTransfer.Framing.{encode_frame}
use rtcforge.Sdk.FileTransfer.Transfer.{
  TransferState, FileTransferErrorCode, emit, emit_progress, move, transition_by,
}
use rtcforge.Sdk.FileTransfer.Transfer.{channel_closed, source_read_failed}
use rtcforge.Sdk.FileTransfer.SendTransfer.Defs.{
  DataChannel, Phase, opening, parked, passing, reading, digesting, draining, finished, broken,
  Worker, Run, SendTransfer, transition_to,
}
use rtcforge.Sdk.FileTransfer.SendTransfer.Workers.{
  is_given, needs, chunk_length, put, loop_from, next_from, count_sent, put_channel, break_run,
  start_drain, is_open_at, is_over_mark, opened, passed, read_done, updated, digested, send_on,
  drained, continue_worker, announce, finish_run, digest_done, announce_first, all_finished,
}
use rtcforge.Sdk.FileTransfer.SendTransfer.Steps.{
  Step, Reach, starts, reoffers, times_out, pauses, resumes, cancels, hears, continues, finishes,
  finalizes, environment,
}
use rtcforge.Sdk.FileTransfer.SendTransfer.Methods.{
  start-Kept, reoffer-Kept, offer_timed_out-Kept, pause-Kept, resume-Kept, cancel-Kept,
  handle_control-Kept, safe_control-Kept,
}
use rtcforge.Sdk.FileTransfer.SendTransfer.Stranded.{
  IsStranded, IsStranded-Closed, is_settled, is_loose, if-IsStranded, begin_run-IsStranded,
}

module _ {C : Type 0} where
  put-IsStranded :
      (w : Worker) (r : Run) (s : SendTransfer C)
      → r.settled ≡ true
      → IsStranded s
      → IsStranded (put w r s)
  unfolding put
  put-IsStranded w r s over v = record {
    loose = v.loose;
    calm = v.calm;
    settled = over;
    quiet = v.quiet;
  }

  next_from-IsStranded :
      (w : Worker) (r : Run) (s : SendTransfer C)
      → r.settled ≡ true
      → IsStranded s
      → IsStranded (next_from w r s)
  unfolding next_from loop_from
  next_from-IsStranded w r s over v = put-IsStranded _ r s over v

  count_sent-IsStranded :
      (seq : ℕ) (s : SendTransfer C) → IsStranded s → IsStranded (count_sent seq s)
  unfolding count_sent emit_progress emit
  count_sent-IsStranded seq s v = record {
    loose = ground (arith, v.loose);
    calm = ground (arith, v.calm);
    settled = ground (arith, v.settled);
    quiet = ground (arith, v.quiet);
  }

  module _ (dc : DataChannel C) (read : ℕ → ℕ → Option (List ℕ)) (sha : List ℕ → List ℕ) where
    break_run-IsStranded :
        (code : FileTransferErrorCode) (w : Worker) (r : Run) (s : SendTransfer C)
        → r.settled ≡ true
        → IsStranded s
        → IsStranded (break_run dc read sha code w r s)
    unfolding break_run
    break_run-IsStranded code w r s over v =
        if-IsStranded r.settled _ _
          (λ yes'.
            put-IsStranded (record w { phase = Phase.broken }) (record r { settled = true }) s refl
              v)
          (λ no'. absurd (ground (arith, over, no')))

    start_drain-IsStranded :
        (bytes : List ℕ) (w : Worker) (r : Run) (s : SendTransfer C)
        → r.settled ≡ true
        → IsStranded s
        → IsStranded (start_drain dc read sha bytes w r s)
    unfolding start_drain
    start_drain-IsStranded bytes w r s over v =
        if-IsStranded
          (is_over_mark dc read sha s.high_water_mark (get_elem? s.channels w.index)
            && not (is_open_at dc read sha (get_elem? s.channels w.index)))
          _ _ (λ shut. break_run-IsStranded channel_closed w r s over v)
          (λ open'. put-IsStranded (record w { phase = Phase.draining bytes }) r s over v)

    needed-IsStranded :
        (bytes : List ℕ) (w : Worker) (r : Run) (s : SendTransfer C)
        → r.settled ≡ true
        → IsStranded s
        → IsStranded (if needs w r then start_drain dc read sha bytes w r s else next_from w r s)
    needed-IsStranded bytes w r s over v =
        if-IsStranded (needs w r) (start_drain dc read sha bytes w r s) (next_from w r s)
          (λ yes'. start_drain-IsStranded bytes w r s over v)
          (λ no'. next_from-IsStranded w r s over v)

    opened-IsStranded :
        (w : Worker) (r : Run) (s : SendTransfer C)
        → r.settled ≡ true
        → IsStranded s
        → IsStranded (opened dc read sha w r s)
    unfolding opened loop_from
    opened-IsStranded w r s over v =
        if-IsStranded (is_open_at dc read sha (get_elem? s.channels w.index)) (loop_from w r s) _
          (λ yes'. put-IsStranded _ r s over v)
          (λ no'. break_run-IsStranded channel_closed w r s over v)

    passed-IsStranded :
        (w : Worker) (r : Run) (s : SendTransfer C)
        → r.settled ≡ true
        → IsStranded s
        → IsStranded (passed dc read sha w r s)
    unfolding passed
    passed-IsStranded w r s over v =
        if-IsStranded (not (needs w r) && not (is_given r.digest)) (next_from w r s)
          (put (record w { phase = Phase.reading }) r s) (λ skip. next_from-IsStranded w r s over v)
          (λ take'. put-IsStranded (record w { phase = Phase.reading }) r s over v)

    read_done-IsStranded :
        (chunk : Option (List ℕ)) (w : Worker) (r : Run) (s : SendTransfer C)
        → r.settled ≡ true
        → IsStranded s
        → IsStranded (read_done dc read sha chunk w r s)
    unfolding read_done
    read_done-IsStranded none w r s over v = break_run-IsStranded source_read_failed w r s over v
    read_done-IsStranded (some bytes) w r s over v =
        if-IsStranded (is_given r.digest) (put (record w { phase = Phase.digesting bytes }) r s) _
          (λ yes'. put-IsStranded (record w { phase = Phase.digesting bytes }) r s over v)
          (λ no'. needed-IsStranded bytes w r s over v)

    send_on-IsStranded :
        (bytes : List ℕ) (o : Option C) (w : Worker) (r : Run) (s : SendTransfer C)
        → r.settled ≡ true
        → IsStranded s
        → IsStranded (send_on dc read sha bytes o w r s)
    unfolding send_on
    send_on-IsStranded bytes none w r s over v = break_run-IsStranded channel_closed w r s over v
    send_on-IsStranded bytes (some c) w r s over v =
        let out = dc.send_bytes (encode_frame w.seq bytes) c in
        let used : SendTransfer C = record s { channels = put_channel w.index out.0 s.channels } in
        let kept : IsStranded used = record {
          loose = v.loose;
          calm = v.calm;
          settled = v.settled;
          quiet = v.quiet;
        } in
        if-IsStranded (not (dc.is_open c)) (break_run dc read sha channel_closed w r s) _
          (λ shut. break_run-IsStranded channel_closed w r s over v)
          (λ open'.
            if-IsStranded out.1 (break_run dc read sha source_read_failed w r used)
              (next_from w r (count_sent w.seq used))
              (λ threw. break_run-IsStranded source_read_failed w r used over kept)
              (λ fine.
                next_from-IsStranded w r (count_sent w.seq used) over
                  (count_sent-IsStranded w.seq used kept)))

    continue_worker-IsStranded :
        (w : Worker) (r : Run) (s : SendTransfer C)
        → r.settled ≡ true
        → IsStranded s
        → IsStranded (continue_worker dc read sha w r s)
    unfolding continue_worker digested drained
    continue_worker-IsStranded w r s over v = by_phase w.phase
      where
        by_phase :
            (p : Phase)
            → IsStranded (elim p as (λ _. SendTransfer C) [
              | opening ↦ opened dc read sha w r s
              | parked ↦ s
              | passing ↦ passed dc read sha w r s
              | reading ↦
                  read_done dc read sha
                    (read (w.seq * s.base.chunk_size) (chunk_length w.seq s))
                    w
                    r
                    s
              | digesting bytes ↦ digested dc read sha bytes w r s
              | draining bytes ↦ drained dc read sha bytes w r s
              | finished ↦ s
              | broken ↦ s
            ])
        by_phase opening = opened-IsStranded w r s over v
        by_phase Phase.parked = v
        by_phase Phase.passing = passed-IsStranded w r s over v
        by_phase Phase.reading = read_done-IsStranded _ w r s over v
        by_phase (Phase.digesting bytes) =
            needed-IsStranded bytes w
              (record r { digest = updated dc read sha w.seq bytes r.digest }) s over v
        by_phase (Phase.draining bytes) =
            send_on-IsStranded bytes (get_elem? s.channels w.index) w r s over v
        by_phase Phase.finished = v
        by_phase Phase.broken = v

    finish_run-IsStranded :
        (r : Run) (s : SendTransfer C)
        → r.settled ≡ true
        → IsStranded s
        → IsStranded (finish_run dc read sha r s)
    unfolding finish_run
    finish_run-IsStranded r s over v =
        if-IsStranded (not r.settled && all_finished r.workers) _ s
          (λ ends. absurd (ground (arith, over, ends))) (λ stays. v)

    digest_done-IsStranded :
        (s : SendTransfer C) → IsStranded s → IsStranded (digest_done dc read sha s)
    unfolding digest_done announce_first
    digest_done-IsStranded s v =
        subst (λ ds. IsStranded (announce_first dc read sha ds s)) (sym v.quiet) v

    settled_of : (r : Run) (s : SendTransfer C) → s.run ≡ some r → IsStranded s → r.settled ≡ true
    settled_of r s there v = sym (ap is_settled there) ∙ v.settled

    Step-IsStranded :
        {Later : C → C → Type 0} {s t : SendTransfer C}
        → Step Later dc read sha s t
        → IsStranded s
        → IsStranded t
    Step-IsStranded {s = s} starts v = start-Kept dc IsStranded (IsStranded-Closed dc) s v
    Step-IsStranded {s = s} (reoffers channels) v =
        reoffer-Kept dc IsStranded (IsStranded-Closed dc) channels s
          (λ again. absurd (ground (arith, v.calm, again))) v
    Step-IsStranded {s = s} times_out v =
        offer_timed_out-Kept dc IsStranded (IsStranded-Closed dc) s v
    Step-IsStranded {s = s} pauses v = pause-Kept dc IsStranded (IsStranded-Closed dc) s v
    Step-IsStranded {s = s} resumes v = resume-Kept dc IsStranded (IsStranded-Closed dc) s v
    Step-IsStranded {s = s} (cancels reason) v =
        cancel-Kept dc IsStranded (IsStranded-Closed dc) reason s v
    Step-IsStranded {s = s} (hears m) v =
        handle_control-Kept dc IsStranded (IsStranded-Closed dc) m s (begin_run-IsStranded dc) v
    Step-IsStranded {s = s} (continues w r there at) v =
        continue_worker-IsStranded w r s (settled_of r s there v) v
    Step-IsStranded {s = s} (finishes r there) v =
        finish_run-IsStranded r s (settled_of r s there v) v
    Step-IsStranded {s = s} finalizes v = digest_done-IsStranded s v
    Step-IsStranded {s = s} (environment channels link_up changed) v = record {
      loose = v.loose;
      calm = v.calm;
      settled = v.settled;
      quiet = v.quiet;
    }

    settled_never_completes :
        (Later : C → C → Type 0) (s t : SendTransfer C)
        → IsStranded s
        → Reach Later dc read sha s t
        → t.base.state ≢ TransferState.completed
    settled_never_completes Later s t v path e = ground (arith, (walk path).loose, e)
      where
        walk : {u : SendTransfer C} → Reach Later dc read sha s u → IsStranded u
        walk Reach.here = v
        walk (Reach.next path' step) = Step-IsStranded step (walk path')

    transition_to-paused :
        (s : SendTransfer C)
        → s.base.state ≡ TransferState.paused
        → (transition_to dc TransferState.completing s).0 ≡ s
    unfolding transition_to transition_by move
    transition_to-paused s paused = rw paused refl

    announce-paused :
        (hex : Option (List ℕ)) (s : SendTransfer C)
        → s.base.state ≡ TransferState.paused
        → IsStranded s
        → IsStranded (announce dc read sha hex s)
    unfolding announce
    announce-paused hex s paused v =
        safe_control-Kept dc IsStranded (IsStranded-Closed dc) (ControlMessage.sent s.base.id hex)
          (transition_to dc TransferState.completing s).0
          (subst IsStranded (sym (transition_to-paused s paused)) v)

    -- If a transfer that a user has paused is still paused when its only run that is left to do so
    -- announces that everything is sent, with a digest or without one, no interleaving of later events,
    -- a resume and the peer's `ft-complete` included, makes it Completed.
    pub paused_send_never_completes :
        (Later : C → C → Type 0) (hex : Option (List ℕ)) (s t : SendTransfer C)
        → s.base.state ≡ TransferState.paused
        → s.interrupted ≡ false
        → is_settled s.run ≡ true
        → s.finalizing ≡ []
        → Reach Later dc read sha (announce dc read sha hex s) t
        → t.base.state ≢ TransferState.completed
    paused_send_never_completes Later hex s t paused calm over last path =
        settled_never_completes Later (announce dc read sha hex s) t
          (announce-paused hex s paused
            (record { loose = ap is_loose paused; calm = calm; settled = over; quiet = last }))
          path
