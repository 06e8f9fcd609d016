-- ===== src/Sdk/FileTransfer/SendTransfer/Continues.antt =====
-- The workers of the current run stand where all that they have passed is done: what a worker does.
use rtcforge.Prelude.{
  OnSome, this, other, ℕ, zero, suc, ◌+◌, ◌≤◌, true, false, not, ◌&&◌, List, [], ◌∷◌, Option, none,
  some, inl, inr, ◌≡◌, ◌≢◌, refl, sym, ap, subst, arith, if◌then◌else◌, if_lem, length, get_elem?,
  number_key,
}
use rtcforge.Map.{contains}
use rtcforge.Sdk.FileTransfer.Framing.{encode_frame}
use rtcforge.Sdk.FileTransfer.Transfer.{
  TransferState, FileTransferErrorCode, same_state, is_terminal, emit, emit_progress,
}
use rtcforge.Sdk.FileTransfer.Transfer.{channel_closed, source_read_failed}
use rtcforge.Sdk.FileTransfer.SendTransfer.Defs.{
  DataChannel, Phase, finished, Worker, Run, SendTransfer, transition_to,
}
use rtcforge.Sdk.FileTransfer.SendTransfer.Workers.{
  is_closed_error, is_given, needs, put, loop_from, next_from, count_sent, put_channel, interrupt,
  break_run, start_drain, is_open_at, is_over_mark, opened, passed, read_done, send_on,
}
use rtcforge.Sdk.FileTransfer.SendTransfer.Methods.{fail_loudly-Kept}
use rtcforge.Sdk.FileTransfer.SendTransfer.Strides.{Behind, passed_more}
use rtcforge.Sdk.FileTransfer.SendTransfer.Covered.{
  Ledger, IsOnCourse, Manned, crew_with_more, crew_replaced,
}
use rtcforge.Sdk.FileTransfer.SendTransfer.Runs.{
  Done, IsCovered, IsCovered-Closed, transition_to-IsCovered,
}

module _ {C : Type 0} (dc : DataChannel C) (Later : C → C → Type 0) (ledger : Ledger dc Later)
    (read : ℕ → ℕ → Option (List ℕ)) (sha : List ℕ → List ℕ) where
  -- The run's workers, and the one that goes on, stand where all that they have passed is done.
  pub record IsReady (w : Worker) (r : Run) (s : SendTransfer C) : Type 0 where
    pub crew :
        Manned
          (length s.channels)
          s.base.total_chunks
          (Done ledger r.have_chunks s.channels)
          0
          r.workers
    pub course :
        IsOnCourse
          (length s.channels)
          s.base.total_chunks
          (Done ledger r.have_chunks s.channels)
          w.index
          w

  put-IsCovered :
      (p : Phase) (w : Worker) (r : Run) (s : SendTransfer C)
      → (p ≡ finished → s.base.total_chunks ≤ w.seq)
      → IsReady w r s
      → IsCovered ledger (put (record w { phase = p }) r s)
  unfolding put
  put-IsCovered p w r s ended v = record {
    covers =
        crew_replaced (record w { phase = p })
          (record { own = refl; behind = v.course.behind; ended = ended }) v.crew;
  }

  loop_from-IsCovered :
      (w : Worker) (r : Run) (s : SendTransfer C)
      → IsReady w r s
      → IsCovered ledger (loop_from w r s)
  unfolding loop_from
  loop_from-IsCovered w r s v = put-IsCovered _ w r s (λ e. ground (arith, e)) v

  pub next_from-IsCovered :
      (w : Worker) (r : Run) (s : SendTransfer C)
      → Done ledger r.have_chunks s.channels w.seq
      → IsReady w r s
      → IsCovered ledger (next_from w r s)
  unfolding next_from
  next_from-IsCovered w r s done v =
      loop_from-IsCovered (record w { seq = w.seq + length s.channels }) r s
        (record {
          crew = v.crew;
          course = record {
            own = refl;
            behind = Behind.steps v.course.behind done;
            ended = λ e. omega (arith, v.course.ended e);
          };
        })

  pub break_run-IsCovered :
      (code : FileTransferErrorCode) (w : Worker) (r : Run) (s : SendTransfer C)
      → IsReady w r s
      → IsCovered ledger (break_run dc read sha code w r s)
  unfolding break_run interrupt
  break_run-IsCovered code w r s v =
      let s' : SendTransfer C =
        put (record w { phase = Phase.broken }) (record r { settled = true }) s in
      let v' : IsCovered ledger s' =
        put-IsCovered Phase.broken w (record r { settled = true }) s
          (λ never. absurd (ground (arith, never))) (record { crew = v.crew; course = v.course }) in
      let moved = transition_to dc TransferState.paused s' in
      let paused' = transition_to-IsCovered ledger TransferState.paused s' v' in
      if_lem (IsCovered ledger) r.settled s' _ (λ late. v')
        (λ first'.
          if_lem (IsCovered ledger)
            (s.resumable && is_closed_error code && not (is_terminal s.base)) _ _
            (λ again.
              if_lem (IsCovered ledger) (same_state s'.base.state TransferState.active) _ s'
                (λ active'.
                  if_lem (IsCovered ledger) moved.1 (record moved.0 { interrupted = true }) moved.0
                    (λ did. record { covers = paused'.covers }) (λ no'. paused'))
                (λ no'. v'))
            (λ over. fail_loudly-Kept dc (IsCovered ledger) (IsCovered-Closed ledger) code s' v'))

  waits-IsCovered :
      (p : Phase) (w : Worker) (r : Run) (s : SendTransfer C)
      → p ≢ finished
      → IsReady w r s
      → IsCovered ledger (put (record w { phase = p }) r s)
  waits-IsCovered p w r s waits v = put-IsCovered p w r s (λ e. absurd (waits e)) v

  start_drain-IsCovered :
      (bytes : List ℕ) (w : Worker) (r : Run) (s : SendTransfer C)
      → IsReady w r s
      → IsCovered ledger (start_drain dc read sha bytes w r s)
  unfolding start_drain
  start_drain-IsCovered bytes w r s v =
      if_lem (IsCovered ledger)
        (is_over_mark dc read sha s.high_water_mark (get_elem? s.channels w.index)
          && not (is_open_at dc read sha (get_elem? s.channels w.index)))
        _ _ (λ shut. break_run-IsCovered channel_closed w r s v)
        (λ open'. waits-IsCovered (Phase.draining bytes) w r s (λ e. ground (arith, e)) v)

  unneeded : (w : Worker) (r : Run) → needs w r ≡ false → contains w.seq r.have_chunks ≡ true
  unneeded w r h = ground (arith, h)

  pub needed-IsCovered :
      (bytes : List ℕ) (w : Worker) (r : Run) (s : SendTransfer C)
      → IsReady w r s
      → IsCovered ledger
          (if needs w r then start_drain dc read sha bytes w r s else next_from w r s)
  needed-IsCovered bytes w r s v =
      if_lem (IsCovered ledger) (needs w r) (start_drain dc read sha bytes w r s) (next_from w r s)
        (λ yes'. start_drain-IsCovered bytes w r s v)
        (λ no'. next_from-IsCovered w r s (inl (unneeded w r no')) v)

  pub opened-IsCovered :
      (w : Worker) (r : Run) (s : SendTransfer C)
      → IsReady w r s
      → IsCovered ledger (opened dc read sha w r s)
  unfolding opened
  opened-IsCovered w r s v =
      if_lem (IsCovered ledger) (is_open_at dc read sha (get_elem? s.channels w.index))
        (loop_from w r s) _ (λ yes'. loop_from-IsCovered w r s v)
        (λ no'. break_run-IsCovered channel_closed w r s v)

  pub passed-IsCovered :
      (w : Worker) (r : Run) (s : SendTransfer C)
      → IsReady w r s
      → IsCovered ledger (passed dc read sha w r s)
  unfolding passed
  passed-IsCovered w r s v =
      if_lem (IsCovered ledger) (not (needs w r) && not (is_given r.digest)) (next_from w r s)
        (put (record w { phase = Phase.reading }) r s)
        (λ skip. next_from-IsCovered w r s (inl (unneeded w r (ground (arith, skip)))) v)
        (λ take'. waits-IsCovered Phase.reading w r s (λ e. ground (arith, e)) v)

  pub read_done-IsCovered :
      (chunk : Option (List ℕ)) (w : Worker) (r : Run) (s : SendTransfer C)
      → IsReady w r s
      → IsCovered ledger (read_done dc read sha chunk w r s)
  unfolding read_done
  read_done-IsCovered none w r s v = break_run-IsCovered source_read_failed w r s v
  read_done-IsCovered (some bytes) w r s v =
      if_lem (IsCovered ledger) (is_given r.digest)
        (put (record w { phase = Phase.digesting bytes }) r s) _
        (λ yes'. waits-IsCovered (Phase.digesting bytes) w r s (λ e. ground (arith, e)) v)
        (λ no'. needed-IsCovered bytes w r s v)

  length-put_channel : (i : ℕ) (c : C) (cs : List C) → length (put_channel i c cs) ≡ length cs
  unfolding put_channel
  length-put_channel i c [] = refl
  length-put_channel zero c (d ∷ cs) = refl
  length-put_channel (suc i) c (d ∷ cs) = ap suc (length-put_channel i c cs)

  on_put :
      {P : C → Type 0} (i : ℕ) (c c' : C) (cs : List C)
      → get_elem? cs i ≡ some c
      → P c'
      → OnSome P (put_channel i c' cs)
  unfolding put_channel
  on_put i c c' [] e p = absurd (ground (arith, e))
  on_put zero c c' (d ∷ cs) e p = OnSome.this p
  on_put (suc i) c c' (d ∷ cs) e p = OnSome.other (on_put i c c' cs e p)

  abbrev channel_or : C → Option C → C
  channel_or d none = d
  channel_or d (some c) = c

  still_put :
      {P : C → Type 0} (i : ℕ) (c c' : C) (cs : List C)
      → get_elem? cs i ≡ some c
      → (P c → P c')
      → OnSome P cs
      → OnSome P (put_channel i c' cs)
  unfolding put_channel
  still_put i c c' [] e more h = absurd (ground (arith, e))
  still_put {P} zero c c' (d ∷ cs) e more (this p) =
      OnSome.this (more (subst P (ap (channel_or d) e) p))
  still_put (suc i) c c' (d ∷ cs) e more (this p) = OnSome.this p
  still_put zero c c' (d ∷ cs) e more (other h) = OnSome.other h
  still_put (suc i) c c' (d ∷ cs) e more (other h) = OnSome.other (still_put i c c' cs e more h)

  pub more-Done :
      (have : List ℕ) (cs ds : List C) (seq : ℕ)
      → (OnSome (ledger.Carried seq) cs → OnSome (ledger.Carried seq) ds)
      → Done ledger have cs seq
      → Done ledger have ds seq
  more-Done have cs ds seq more (inl had) = inl had
  more-Done have cs ds seq more (inr taken) = inr (more taken)

  -- The channels have changed, and have forgotten nothing.
  changed-IsReady :
      (cs : List C) (w : Worker) (r : Run) (s : SendTransfer C)
      → length cs ≡ length s.channels
      → ((seq : ℕ) → OnSome (ledger.Carried seq) s.channels → OnSome (ledger.Carried seq) cs)
      → IsReady w r s
      → IsReady w r (record s { channels = cs })
  changed-IsReady cs w r s same more v = record {
    crew =
        subst (λ n. Manned n s.base.total_chunks (Done ledger r.have_chunks cs) 0 r.workers)
          (sym same)
          (crew_with_more (λ n. more-Done r.have_chunks s.channels cs n (more n)) v.crew);
    course = record {
      own = refl;
      behind =
          subst (λ n. Behind n w.index (Done ledger r.have_chunks cs) w.seq) (sym same)
            (passed_more (λ n. more-Done r.have_chunks s.channels cs n (more n)) v.course.behind);
      ended = v.course.ended;
    };
  }

  counted-IsReady :
      (seq : ℕ) (w : Worker) (r : Run) (s : SendTransfer C)
      → IsReady w r s
      → IsReady w r (count_sent seq s)
  unfolding count_sent emit_progress emit
  counted-IsReady seq w r s v =
      if_lem (λ (t : SendTransfer C). IsReady w r (record t { base = emit_progress t.base }))
        (contains seq s.sent_seqs) s _ (λ again. record { crew = v.crew; course = v.course })
        (λ once. record { crew = v.crew; course = v.course })

  counted-channels : (seq : ℕ) (s : SendTransfer C) → (count_sent seq s).channels ≡ s.channels
  unfolding count_sent emit_progress emit
  counted-channels seq s = ground arith

  pub send_on-IsCovered :
      (bytes : List ℕ) (o : Option C) (w : Worker) (r : Run) (s : SendTransfer C)
      → get_elem? s.channels w.index ≡ o
      → IsReady w r s
      → IsCovered ledger (send_on dc read sha bytes o w r s)
  unfolding send_on
  send_on-IsCovered bytes none w r s there v = break_run-IsCovered channel_closed w r s v
  send_on-IsCovered bytes (some c) w r s there v =
      let out = dc.send_bytes (encode_frame w.seq bytes) c in
      let used : SendTransfer C = record s { channels = put_channel w.index out.0 s.channels } in
      let used-IsReady =
        changed-IsReady (put_channel w.index out.0 s.channels) w r s
          (length-put_channel w.index out.0 s.channels)
          (λ seq.
            still_put {P = ledger.Carried seq} w.index c out.0 s.channels there
              (ledger.keeps seq (encode_frame w.seq bytes) c))
          v in
      if_lem (IsCovered ledger) (not (dc.is_open c)) (break_run dc read sha channel_closed w r s) _
        (λ shut. break_run-IsCovered channel_closed w r s v)
        (λ open'.
          if_lem (IsCovered ledger) out.1 (break_run dc read sha source_read_failed w r used)
            (next_from w r (count_sent w.seq used))
            (λ threw. break_run-IsCovered source_read_failed w r used used-IsReady)
            (λ fine.
              next_from-IsCovered w r (count_sent w.seq used)
                (inr (
                  subst (OnSome (ledger.Carried w.seq)) (sym (counted-channels w.seq used)) (
                    on_put {P = ledger.Carried w.seq} w.index c out.0 s.channels there
                      (ledger.takes w.seq bytes c (ground (arith, open')) fine))))
                (counted-IsReady w.seq w r used used-IsReady)))
