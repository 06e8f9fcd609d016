-- ===== src/Sdk/FileTransfer/SendTransfer/Complete.antt =====
-- Every chunk is handed to a channel before the workers of a run have ended.
use rtcforge.Prelude.{
  OnSome, this, other, ℕ, suc, ◌*◌, ◌<◌, Bool, true, not, ◌&&◌, List, [], ◌∷◌, ◌++◌, Option, none,
  some, ◌⊎◌, ◌≡◌, refl, sym, ap, subst, arith, if_lem, length, get_elem?, String, number_key,
}
use rtcforge.Map.{contains}
use rtcforge.Sdk.FileTransfer.Checksum.{Sha256Digest, finalize}
use rtcforge.Sdk.FileTransfer.Transfer.{TransferState, FileMetadata}
use rtcforge.Sdk.FileTransfer.SendTransfer.Defs.{
  DataChannel, Phase, opening, parked, passing, reading, digesting, draining, finished, broken,
  Worker, Run, SendTransfer, transition_to, new_send,
}
use rtcforge.Sdk.FileTransfer.SendTransfer.Workers.{
  chunk_length, opened, passed, read_done, updated, digested, drained, continue_worker, announce,
  finish_run, announce_first, digest_done, all_finished,
}
use rtcforge.Sdk.FileTransfer.SendTransfer.Steps.{
  Changed, none_left, each, Step, Reach, here, next, starts, reoffers, times_out, pauses, resumes,
  cancels, hears, continues, finishes, finalizes, environment,
}
use rtcforge.Sdk.FileTransfer.SendTransfer.Methods.{
  start-Kept, reoffer-Kept, offer_timed_out-Kept, pause-Kept, resume-Kept, cancel-Kept,
  handle_control-Kept, safe_control-Kept,
}
use rtcforge.Sdk.FileTransfer.SendTransfer.Strides.{visited-Done, visited}
use rtcforge.Sdk.FileTransfer.SendTransfer.Covered.{
  Ledger, IsOnCourse, Manned, crew_with_more, crew_member, crew_finished,
}
use rtcforge.Sdk.FileTransfer.SendTransfer.Runs.{
  Done, CoveredBy, IsCovered, IsCovered-Closed, transition_to-IsCovered, begin_run-IsCovered,
}
use rtcforge.Sdk.FileTransfer.SendTransfer.Continues.{
  IsReady, opened-IsCovered, passed-IsCovered, read_done-IsCovered, needed-IsCovered,
  send_on-IsCovered, more-Done,
}

module _ {C : Type 0} (dc : DataChannel C) (Later : C → C → Type 0) (ledger : Ledger dc Later)
    (read : ℕ → ℕ → Option (List ℕ)) (sha : List ℕ → List ℕ) where
  continue_worker-IsCovered :
      (w : Worker) (r : Run) (s : SendTransfer C)
      → IsReady dc Later ledger read sha w r s
      → IsCovered ledger s
      → IsCovered ledger (continue_worker dc read sha w r s)
  unfolding continue_worker digested drained
  continue_worker-IsCovered w r s ready v = by_phase w.phase
    where
      by_phase :
          (p : Phase)
          → IsCovered ledger (elim p as (λ _. SendTransfer C) [
            | opening ↦ opened dc read sha w r s
            | parked ↦ s
            | passing ↦ passed dc read sha w r s
            | reading ↦
                read_done dc read sha
                  (read (w.seq * s.base.chunk_size) (chunk_length w.seq s))
                  w
                  r
                  s
            | digesting bytes ↦ digested dc read sha bytes w r s
            | draining bytes ↦ drained dc read sha bytes w r s
            | finished ↦ s
            | broken ↦ s
          ])
      by_phase opening = opened-IsCovered dc Later ledger read sha w r s ready
      by_phase Phase.parked = v
      by_phase Phase.passing = passed-IsCovered dc Later ledger read sha w r s ready
      by_phase Phase.reading = read_done-IsCovered dc Later ledger read sha _ w r s ready
      by_phase (Phase.digesting bytes) =
          needed-IsCovered dc Later ledger read sha bytes w
            (record r { digest = updated dc read sha w.seq bytes r.digest }) s
            (record { crew = ready.crew; course = ready.course })
      by_phase (Phase.draining bytes) =
          send_on-IsCovered dc Later ledger read sha bytes (get_elem? s.channels w.index) w r s refl
            ready
      by_phase Phase.finished = v
      by_phase Phase.broken = v

  crew_of :
      (r : Run) (s : SendTransfer C)
      → s.run ≡ some r
      → IsCovered ledger s
      → Manned
          (length s.channels)
          s.base.total_chunks
          (Done ledger r.have_chunks s.channels)
          0
          r.workers
  crew_of r s there v =
      subst (λ o. CoveredBy ledger o s.channels s.base.total_chunks) there v.covers

  crew-IsReady :
      (w : Worker) (r : Run) (s : SendTransfer C)
      → s.run ≡ some r
      → get_elem? r.workers w.index ≡ some w
      → IsCovered ledger s
      → IsReady dc Later ledger read sha w r s
  crew-IsReady w r s there at v =
      let crew = crew_of r s there v in
      let (i, (here', good)) = crew_member w.index w crew at in
      record {
        crew = crew;
        course =
            subst
              (λ k.
                IsOnCourse (length s.channels) s.base.total_chunks
                  (Done ledger r.have_chunks s.channels) k w)
              (sym good.own) good;
      }

  announce-IsCovered :
      (hex : Option (List ℕ)) (s : SendTransfer C)
      → IsCovered ledger s
      → IsCovered ledger (announce dc read sha hex s)
  unfolding announce
  announce-IsCovered hex s v =
      safe_control-Kept dc (IsCovered ledger) (IsCovered-Closed ledger) _
        (transition_to dc TransferState.completing s).0
        (transition_to-IsCovered ledger TransferState.completing s v)

  finish_run-IsCovered :
      (r : Run) (s : SendTransfer C)
      → s.run ≡ some r
      → IsCovered ledger s
      → IsCovered ledger (finish_run dc read sha r s)
  unfolding finish_run
  finish_run-IsCovered r s there v =
      if_lem (IsCovered ledger) (not r.settled && all_finished r.workers) _ s
        (λ ends. by_digest r.digest) (λ stays. v)
    where
      over : SendTransfer C
      over = record s { run = some (record r { settled = true }) }

      by_digest :
          (o : Option Sha256Digest)
          → IsCovered ledger (elim o as (λ _. SendTransfer C) [
            | none ↦ announce dc read sha none over
            | some d ↦ record over { finalizing = s.finalizing ++ (d ∷ []) }
          ])
      by_digest none = announce-IsCovered none over (record { covers = crew_of r s there v })
      by_digest (some d) = record { covers = crew_of r s there v }

  digest_done-IsCovered :
      (s : SendTransfer C) → IsCovered ledger s → IsCovered ledger (digest_done dc read sha s)
  unfolding digest_done announce_first
  digest_done-IsCovered s v = by_waiting s.finalizing
    where
      by_waiting : (ds : List Sha256Digest) → IsCovered ledger (announce_first dc read sha ds s)
      by_waiting [] = v
      by_waiting (d ∷ rest) =
          announce-IsCovered (some (finalize sha d)) (record s { finalizing = rest })
            (record { covers = v.covers })

  length-Changed : (cs ds : List C) → Changed Later cs ds → length ds ≡ length cs
  length-Changed [] [] none_left = refl
  length-Changed [] (d ∷ ds) ch = elim ch [ ]
  length-Changed (c ∷ cs) [] ch = elim ch [ ]
  length-Changed (c ∷ cs) (d ∷ ds) (each l ch) = ap suc (length-Changed cs ds ch)

  still_on :
      (seq : ℕ) (cs ds : List C)
      → Changed Later cs ds
      → OnSome (ledger.Carried seq) cs
      → OnSome (ledger.Carried seq) ds
  still_on seq [] ds ch h = elim h [ ]
  still_on seq (c ∷ cs) [] ch h = elim ch [ ]
  still_on seq (c ∷ cs) (d ∷ ds) (each l ch) (this p) = OnSome.this (ledger.lasts seq c d l p)
  still_on seq (c ∷ cs) (d ∷ ds) (each l ch) (other h) = OnSome.other (still_on seq cs ds ch h)

  Changed-CoveredBy :
      (o : Option Run) (cs ds : List C) (total : ℕ)
      → Changed Later cs ds
      → CoveredBy ledger o cs total
      → CoveredBy ledger o ds total
  Changed-CoveredBy none cs ds total ch v = tt
  Changed-CoveredBy (some r) cs ds total ch v =
      subst (λ n. Manned n total (Done ledger r.have_chunks ds) 0 r.workers)
        (sym (length-Changed cs ds ch))
        (crew_with_more
          (λ n. more-Done dc Later ledger read sha r.have_chunks cs ds n (still_on n cs ds ch)) v)

  Step-IsCovered :
      {s t : SendTransfer C} → Step Later dc read sha s t → IsCovered ledger s → IsCovered ledger t
  Step-IsCovered {s} starts v = start-Kept dc (IsCovered ledger) (IsCovered-Closed ledger) s v
  Step-IsCovered {s} (reoffers channels) v =
      reoffer-Kept dc (IsCovered ledger) (IsCovered-Closed ledger) channels s
        (λ again. record { covers = tt }) v
  Step-IsCovered {s} times_out v =
      offer_timed_out-Kept dc (IsCovered ledger) (IsCovered-Closed ledger) s v
  Step-IsCovered {s} pauses v = pause-Kept dc (IsCovered ledger) (IsCovered-Closed ledger) s v
  Step-IsCovered {s} resumes v = resume-Kept dc (IsCovered ledger) (IsCovered-Closed ledger) s v
  Step-IsCovered {s} (cancels reason) v =
      cancel-Kept dc (IsCovered ledger) (IsCovered-Closed ledger) reason s v
  Step-IsCovered {s} (hears m) v =
      handle_control-Kept dc (IsCovered ledger) (IsCovered-Closed ledger) m s
        (begin_run-IsCovered ledger) v
  Step-IsCovered {s} (continues w r there at) v =
      continue_worker-IsCovered w r s (crew-IsReady w r s there at v) v
  Step-IsCovered {s} (finishes r there) v = finish_run-IsCovered r s there v
  Step-IsCovered {s} finalizes v = digest_done-IsCovered s v
  Step-IsCovered {s} (environment channels link_up changed) v = record {
    covers = Changed-CoveredBy s.run s.channels channels s.base.total_chunks changed v.covers;
  }

  Reach-IsCovered :
      {s t : SendTransfer C} → IsCovered ledger s → Reach Later dc read sha s t → IsCovered ledger t
  Reach-IsCovered v here = v
  Reach-IsCovered v (next path step) = Step-IsCovered step (Reach-IsCovered v path)

  -- Whatever has happened to a transfer since it was made, in any order: when all the workers of its
  -- current run have ended, and there is a channel, each chunk of the file is one that the receiver
  -- said it has, or one of the run's channels took a frame of it while open, without an error.
  pub sent_is_complete :
      (id peer_id : String) (metadata : FileMetadata) (channels : List C) (chunk_size high : ℕ)
      (checksum resumable : Bool) (timeout_ms : ℕ) (s : SendTransfer C) (r : Run) (seq : ℕ)
      → Reach Later dc read sha
          (new_send id peer_id metadata channels chunk_size high checksum resumable timeout_ms)
          s
      → s.run ≡ some r
      → all_finished r.workers ≡ true
      → 0 < length s.channels
      → seq < s.base.total_chunks
      → (contains seq r.have_chunks ≡ true) ⊎ OnSome (ledger.Carried seq) s.channels
  unfolding new_send
  sent_is_complete id peer_id metadata channels chunk_size high checksum resumable timeout_ms s r
        seq path there ended open' below =
      let covered = Reach-IsCovered (record { covers = tt }) path in
      let (i, (within, visits)) = visited (suc seq) (length s.channels) seq open' (omega arith) in
      let (at, (past, behind)) =
        crew_finished i (crew_of r s there covered) ended (omega arith) within in
      visited-Done behind visits (omega (arith, below, past))
