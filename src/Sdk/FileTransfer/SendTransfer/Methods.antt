-- ===== src/Sdk/FileTransfer/SendTransfer/Methods.antt =====
-- The methods, and the control messages, keep what their parts keep.
use rtcforge.Prelude.{
  ℕ, Bool, true, false, not, ◌&&◌, ◌||◌, List, [], ◌∷◌, ◌++◌, Option, some, none, ◌≡◌, refl, arith,
  if_lem, number_key,
}
use rtcforge.Sdk.FileTransfer.Protocol.{ControlMessage, Reason, failure}
use rtcforge.Sdk.FileTransfer.Transfer.{
  TransferState, FileTransferErrorCode, TransferEvent, same_state, is_terminal,
}
use rtcforge.Sdk.FileTransfer.SendTransfer.Defs.{
  DataChannel, SendTransfer, emit_in, emit_reason, transition_to, fail_quietly, safe_control,
  fail_loudly, send_offer, arm_offer_timeout, start, reoffer, offer_timed_out, apply_pause,
  apply_resume, pause, resume, mark_cancelled, cancel, begin_run, completed_by_peer, handle_control,
  release_run, chunks_or_none,
}

abbrev pub is_completing : TransferState → Bool
is_completing TransferState.completing = true
is_completing _ = false

-- What each of the parts must keep.
pub record Closed {C : Type 0} (dc : DataChannel C) (Kept : SendTransfer C → Type 0) : Type 0 where
  pub moves :
      (next : TransferState) (s : SendTransfer C)
      → is_completing next ≡ false
      → Kept s
      → Kept (transition_to dc next s).0
  pub emits : (e : TransferEvent) (s : SendTransfer C) → Kept s → Kept (emit_in e s)
  pub sends :
      (m : ControlMessage) (s : SendTransfer C)
      → Kept s
      → Kept (record s { outbox = s.outbox ++ (m ∷ []) })
  pub timers : (on : Bool) (s : SendTransfer C) → Kept s → Kept (record s { offer_timer = on })
  pub pends : (on : Bool) (s : SendTransfer C) → Kept s → Kept (record s { pending_pause = on })
  pub releases : (s : SendTransfer C) → Kept s → Kept (record s { run = release_run s.run })

module _ {C : Type 0} (dc : DataChannel C) (Kept : SendTransfer C → Type 0)
    (closed : Closed dc Kept) where
  fail_quietly-Kept :
      (code : FileTransferErrorCode) (s : SendTransfer C) → Kept s → Kept (fail_quietly dc code s)
  unfolding fail_quietly
  fail_quietly-Kept code s v =
      if_lem Kept (is_terminal s.base) s _ (λ over. v)
        (λ going.
          closed.emits (TransferEvent.error code) (transition_to dc TransferState.failed s).0
            (closed.moves TransferState.failed s refl v))

  pub safe_control-Kept :
      (m : ControlMessage) (s : SendTransfer C) → Kept s → Kept (safe_control dc m s)
  unfolding safe_control
  safe_control-Kept m s v =
      if_lem Kept s.link_up (record s { outbox = s.outbox ++ (m ∷ []) }) _
        (λ up. closed.sends m s v)
        (λ down. fail_quietly-Kept FileTransferErrorCode.channel_closed s v)

  pub fail_loudly-Kept :
      (code : FileTransferErrorCode) (s : SendTransfer C) → Kept s → Kept (fail_loudly dc code s)
  unfolding fail_loudly
  fail_loudly-Kept code s v =
      if_lem Kept (is_terminal s.base) s _ (λ over. v)
        (λ going. closed.emits (TransferEvent.error code) _ (
          safe_control-Kept (ControlMessage.cancel s.base.id (some (failure code))) _
            (closed.moves TransferState.failed s refl v)))

  pub start-Kept : (s : SendTransfer C) → Kept s → Kept (start dc s)
  unfolding start send_offer arm_offer_timeout
  start-Kept s v =
      let offered = transition_to dc TransferState.offered s in
      let sent = safe_control-Kept _ offered.0 (closed.moves TransferState.offered s refl v) in
      if_lem Kept (not offered.1) s _ (λ refused. v)
        (λ moved.
          if_lem Kept (same_state (send_offer dc offered.0).base.state TransferState.offered)
            (arm_offer_timeout dc (send_offer dc offered.0)) (send_offer dc offered.0)
            (λ waiting. closed.timers _ _ sent) (λ over. sent))

  pub reoffer-Kept :
      (channels : List C) (s : SendTransfer C)
      → (s.interrupted ≡ true → Kept (record s { channels = channels; run = none }))
      → Kept s
      → Kept (reoffer dc channels s)
  unfolding reoffer send_offer arm_offer_timeout
  reoffer-Kept channels s renewed v =
      if_lem Kept (is_terminal s.base || not s.interrupted) s _ (λ idle. v)
        (λ again. closed.timers _ _ (safe_control-Kept _ _ (renewed (ground (arith, again)))))

  pub offer_timed_out-Kept : (s : SendTransfer C) → Kept s → Kept (offer_timed_out dc s)
  unfolding offer_timed_out
  offer_timed_out-Kept s v =
      let fired = closed.timers false s v in
      if_lem Kept (not s.offer_timer) s _ (λ off. v)
        (λ on.
          if_lem Kept
            (same_state s.base.state TransferState.offered
              || (s.interrupted && not (is_terminal s.base)))
            (fail_loudly dc FileTransferErrorCode.timeout (record s { offer_timer = false }))
            (record s { offer_timer = false })
            (λ waiting. fail_loudly-Kept FileTransferErrorCode.timeout _ fired) (λ over. fired))

  apply_pause-Kept : (s : SendTransfer C) → Kept s → Kept (apply_pause dc s).0
  unfolding apply_pause
  apply_pause-Kept s v =
      if_lem {A = SendTransfer C × Bool} (λ s. Kept s.0)
        (same_state s.base.state TransferState.accepted) (record s { pending_pause = true }, true) _
        (λ soon. closed.pends _ s v)
        (λ later.
          if_lem {A = SendTransfer C × Bool} (λ s. Kept s.0)
            (not (same_state s.base.state TransferState.active)) (s, false) _ (λ no'. v)
            (λ now. closed.moves TransferState.paused s refl v))

  pub apply_resume-Kept : (s : SendTransfer C) → Kept s → Kept (apply_resume dc s).0
  unfolding apply_resume
  apply_resume-Kept s v =
      let moved = transition_to dc TransferState.active s in
      let active = closed.moves TransferState.active s refl v in
      if_lem {A = SendTransfer C × Bool} (λ s. Kept s.0)
        (same_state s.base.state TransferState.accepted && s.pending_pause)
        (record s { pending_pause = false }, true) _ (λ soon. closed.pends _ s v)
        (λ later.
          if_lem {A = SendTransfer C × Bool} (λ s. Kept s.0)
            (not (same_state s.base.state TransferState.paused)) (s, false) _ (λ no'. v)
            (λ paused'.
              if_lem {A = SendTransfer C × Bool} (λ s. Kept s.0) (not moved.1) (moved.0, false)
                (record moved.0 { run = release_run moved.0.run }, true) (λ refused. active)
                (λ did. closed.releases moved.0 active)))

  pub pause-Kept : (s : SendTransfer C) → Kept s → Kept (pause dc s)
  unfolding pause
  pause-Kept s v =
      let paused = apply_pause-Kept s v in
      if_lem Kept (apply_pause dc s).1 _ (apply_pause dc s).0
        (λ did. safe_control-Kept (ControlMessage.pause s.base.id) (apply_pause dc s).0 paused)
        (λ no'. paused)

  pub resume-Kept : (s : SendTransfer C) → Kept s → Kept (resume dc s)
  unfolding resume
  resume-Kept s v =
      let resumed = apply_resume-Kept s v in
      if_lem Kept (apply_resume dc s).1 _ (apply_resume dc s).0
        (λ did. safe_control-Kept (ControlMessage.resume s.base.id) (apply_resume dc s).0 resumed)
        (λ no'. resumed)

  emit_reason-Kept :
      (reason : Option Reason) (s : SendTransfer C) → Kept s → Kept (emit_reason reason s)
  unfolding emit_reason
  emit_reason-Kept none s v = v
  emit_reason-Kept (some reason) s v = closed.emits _ s v

  mark_cancelled-Kept :
      (reason : Option Reason) (s : SendTransfer C) → Kept s → Kept (mark_cancelled dc reason s)
  unfolding mark_cancelled
  mark_cancelled-Kept reason s v =
      if_lem Kept (is_terminal s.base) s _ (λ over. v)
        (λ going. emit_reason-Kept reason _ (
          closed.moves TransferState.cancelled (record s { offer_timer = false }) refl
            (closed.timers false s v)))

  pub cancel-Kept :
      (reason : Option Reason) (s : SendTransfer C) → Kept s → Kept (cancel dc reason s)
  unfolding cancel
  cancel-Kept reason s v =
      if_lem Kept (is_terminal s.base) s _ (λ over. v)
        (λ going.
          mark_cancelled-Kept reason _
            (safe_control-Kept (ControlMessage.cancel s.base.id reason) s v))

  completed_by_peer-Kept : (s : SendTransfer C) → Kept s → Kept (completed_by_peer dc s)
  unfolding completed_by_peer
  completed_by_peer-Kept s v =
      let done = closed.moves TransferState.completed s refl v in
      if_lem Kept (transition_to dc TransferState.completed s).1 _
        (transition_to dc TransferState.completed s).0
        (λ did. closed.emits TransferEvent.complete _ done) (λ no'. done)

  pub handle_control-Kept :
      (m : ControlMessage) (s : SendTransfer C)
      → ((have : List ℕ) (u : SendTransfer C) → Kept u → Kept (begin_run dc have u))
      → Kept s
      → Kept (handle_control dc m s)
  unfolding handle_control
  handle_control-Kept (ControlMessage.offer id o) s begins v = closed.timers false s v
  handle_control-Kept (ControlMessage.accept id have) s begins v =
      begins (chunks_or_none have) _ (closed.timers false s v)
  handle_control-Kept (ControlMessage.reject id reason) s begins v =
      fail_quietly-Kept _ _ (closed.timers false s v)
  handle_control-Kept (ControlMessage.resume_request id have) s begins v =
      begins have _ (closed.timers false s v)
  handle_control-Kept (ControlMessage.sent id digest) s begins v = closed.timers false s v
  handle_control-Kept (ControlMessage.complete id) s begins v =
      completed_by_peer-Kept _ (closed.timers false s v)
  handle_control-Kept (ControlMessage.checksum_mismatch id) s begins v =
      fail_quietly-Kept _ _ (closed.timers false s v)
  handle_control-Kept (ControlMessage.cancel id reason) s begins v =
      mark_cancelled-Kept reason _ (closed.timers false s v)
  handle_control-Kept (ControlMessage.pause id) s begins v =
      apply_pause-Kept _ (closed.timers false s v)
  handle_control-Kept (ControlMessage.resume id) s begins v =
      apply_resume-Kept _ (closed.timers false s v)
