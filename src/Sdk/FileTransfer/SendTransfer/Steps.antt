-- ===== src/Sdk/FileTransfer/SendTransfer/Steps.antt =====
-- SendTransfer.ts: everything that can happen to a transfer, in any order.
use rtcforge.Prelude.{ℕ, Bool, List, [], ◌∷◌, Option, some, ◌≡◌, get_elem?}
use rtcforge.Sdk.FileTransfer.Protocol.{ControlMessage, Reason}
use rtcforge.Sdk.FileTransfer.SendTransfer.Defs.{
  DataChannel, Worker, Run, SendTransfer, start, reoffer, offer_timed_out, pause, resume, cancel,
  handle_control,
}
use rtcforge.Sdk.FileTransfer.SendTransfer.Workers.{continue_worker, finish_run, digest_done}

-- Each channel may have changed on its own, in the way that `Later` says.
pub data Changed {C : Type 0} (Later : C → C → Type 0) : List C → List C → Type 0 where
  none_left : Changed Later [] []
  each :
      {c d : C} {cs ds : List C} → Later c d → Changed Later cs ds → Changed Later (c ∷ cs) (d ∷ ds)

module _ {C : Type 0} (Later : C → C → Type 0) (dc : DataChannel C) (read : ℕ → ℕ → Option (List ℕ))
    (sha : List ℕ → List ℕ) where
  -- `environment` is a change of the channels' own state or of the control link.
  pub data Step (s : SendTransfer C) : SendTransfer C → Type 0 where
    starts : Step s (start dc s)
    reoffers : (channels : List C) → Step s (reoffer dc channels s)
    times_out : Step s (offer_timed_out dc s)
    pauses : Step s (pause dc s)
    resumes : Step s (resume dc s)
    cancels : (reason : Option Reason) → Step s (cancel dc reason s)
    hears : (m : ControlMessage) → Step s (handle_control dc m s)
    continues :
        (w : Worker) (r : Run)
        → s.run ≡ some r
        → get_elem? r.workers w.index ≡ some w
        → Step s (continue_worker dc read sha w r s)
    finishes : (r : Run) → s.run ≡ some r → Step s (finish_run dc read sha r s)
    finalizes : Step s (digest_done dc read sha s)
    environment :
        (channels : List C) (link_up : Bool)
        → Changed Later s.channels channels
        → Step s (record s { channels = channels; link_up = link_up })

  pub data Reach (s : SendTransfer C) : SendTransfer C → Type 0 where
    here : Reach s s
    next : {t u : SendTransfer C} → Reach s t → Step t u → Reach s u
