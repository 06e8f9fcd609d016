-- ===== src/Sdk/FileTransfer/SendTransfer/Runs.antt =====
-- The workers of the current run stand where all that they have passed is done: the methods.
use rtcforge.Prelude.{
  OnSome, ℕ, suc, Bool, true, false, not, ◌&&◌, List, [], ◌∷◌, Option, none, some, ◌⊎◌, ◌≡◌, refl,
  sym, ap, ◌∙◌, if◌then◌else◌, if_lem, length, number_key,
}
use rtcforge.Map.{contains}
use rtcforge.Sdk.FileTransfer.Transfer.{
  TransferState, Move, stay, refuse, go, move, same_state, terminal, emit, enter, transition_by,
}
use rtcforge.Sdk.FileTransfer.SendTransfer.Defs.{
  DataChannel, Run, SendTransfer, enter_in, emit_in, close_all, on_terminal, transition_to,
  release_run, start_run, begin_run, apply_resume,
}
use rtcforge.Sdk.FileTransfer.SendTransfer.Methods.{Closed, apply_resume-Kept}
use rtcforge.Sdk.FileTransfer.SendTransfer.Covered.{Ledger, Manned, crew_released, all-Manned}

module _ {C : Type 0} {dc : DataChannel C} {Later : C → C → Type 0} (ledger : Ledger dc Later) where
  -- The receiver has the chunk, or one of the channels took a frame of it.
  abbrev pub Done : List ℕ → List C → ℕ → Type 0
  Done have channels seq = (contains seq have ≡ true) ⊎ OnSome (λ c. ledger.Carried seq c) channels

  abbrev pub CoveredBy : Option Run → List C → ℕ → Type 0
  CoveredBy none channels total = Unit
  CoveredBy (some r) channels total =
      Manned (length channels) total (Done r.have_chunks channels) 0 r.workers

  pub record IsCovered (s : SendTransfer C) : Type 0 where
    pub covers : CoveredBy s.run s.channels s.base.total_chunks

  covered-release :
      (o : Option Run) (channels : List C) (total : ℕ)
      → CoveredBy o channels total
      → CoveredBy (release_run o) channels total
  unfolding release_run
  covered-release none channels total v = v
  covered-release (some r) channels total v = crew_released v

  pub transition_to-IsCovered :
      (next : TransferState) (s : SendTransfer C)
      → IsCovered s
      → IsCovered (transition_to dc next s).0
  unfolding transition_to transition_by enter_in enter on_terminal emit
  transition_to-IsCovered next s v = by_move (move s.base.state next)
    where
      by_move :
          (m : Move)
          → IsCovered
              (elim m as (λ _. SendTransfer C × Bool) [
                | stay ↦ (s, true)
                | refuse ↦ (s, false)
                | go ↦ (
                  if terminal next then on_terminal dc (enter_in next s) else enter_in next s,
                  true,
                )
              ]).0
      by_move stay = v
      by_move refuse = v
      by_move go =
          if_lem IsCovered (terminal next) (on_terminal dc (enter_in next s)) (enter_in next s)
            (λ over. record { covers = tt }) (λ going. record { covers = v.covers })

  pub IsCovered-Closed : Closed dc IsCovered
  unfolding emit_in emit
  IsCovered-Closed = record {
    moves = λ next s ready v. transition_to-IsCovered next s v;
    emits = λ e s v. record { covers = v.covers };
    sends = λ m s v. record { covers = v.covers };
    timers = λ on s v. record { covers = v.covers };
    pends = λ on s v. record { covers = v.covers };
    releases =
        λ s v. record { covers = covered-release s.run s.channels s.base.total_chunks v.covers };
  }

  length-close_all : (cs : List C) → length (close_all dc cs) ≡ length cs
  unfolding close_all
  length-close_all [] = refl
  length-close_all (c ∷ cs) = ap suc (length-close_all cs)

  length-transition_to :
      (next : TransferState) (s : SendTransfer C)
      → length (transition_to dc next s).0.channels ≡ length s.channels
  unfolding transition_to transition_by enter_in enter on_terminal emit
  length-transition_to next s = by_move (move s.base.state next)
    where
      by_move :
          (m : Move)
          → length
              (elim m as (λ _. SendTransfer C × Bool) [
                | stay ↦ (s, true)
                | refuse ↦ (s, false)
                | go ↦ (
                  if terminal next then on_terminal dc (enter_in next s) else enter_in next s,
                  true,
                )
              ]).0.channels
            ≡ length s.channels
      by_move stay = refl
      by_move refuse = refl
      by_move go =
          if_lem (λ (t : SendTransfer C). length t.channels ≡ length s.channels) (terminal next)
            (on_terminal dc (enter_in next s)) (enter_in next s)
            (λ over. length-close_all s.channels) (λ going. refl)

  start_run-IsCovered :
      (have : List ℕ) (s : SendTransfer C) → IsCovered s → IsCovered (start_run dc have s)
  unfolding start_run
  start_run-IsCovered have s v =
      let active : SendTransfer C =
        if same_state s.base.state TransferState.accepted
        then (transition_to dc TransferState.active s).0
        else s in
      let paused' : SendTransfer C =
        (transition_to dc TransferState.paused (record active { pending_pause = false })).0 in
      let at_active : length active.channels ≡ length s.channels =
        if_lem (λ (t : SendTransfer C). length t.channels ≡ length s.channels)
          (same_state s.base.state TransferState.accepted)
          (transition_to dc TransferState.active s).0 s
          (λ yes'. length-transition_to TransferState.active s) (λ no'. refl) in
      let at_gated =
        if_lem (λ (t : SendTransfer C). length t.channels ≡ length s.channels) active.pending_pause
          paused' active
          (λ yes'.
            length-transition_to TransferState.paused (record active { pending_pause = false })
            ∙ at_active)
          (λ no'. at_active) in
      if_lem IsCovered (not (same_state active.base.state TransferState.active))
        (record active { run = none }) _ (λ idle. record { covers = tt })
        (λ going. record { covers = all-Manned (length s.channels) (sym at_gated) })

  pub begin_run-IsCovered :
      (have : List ℕ) (s : SendTransfer C) → IsCovered s → IsCovered (begin_run dc have s)
  unfolding begin_run
  begin_run-IsCovered have s v =
      let idle : SendTransfer C = record s { offer_timer = false } in
      let idle-IsCovered : IsCovered idle = record { covers = v.covers } in
      let calm : SendTransfer C = record idle { interrupted = false } in
      let fresh = transition_to dc TransferState.accepted idle in
      let fresh-IsCovered = transition_to-IsCovered TransferState.accepted idle idle-IsCovered in
      let again = apply_resume dc calm in
      let again-IsCovered =
        apply_resume-Kept dc IsCovered IsCovered-Closed calm (record { covers = v.covers }) in
      if_lem IsCovered (same_state s.base.state TransferState.offered) _ _
        (λ offered'.
          if_lem IsCovered (not fresh.1) fresh.0 _ (λ refused. fresh-IsCovered)
            (λ taken. start_run-IsCovered have fresh.0 fresh-IsCovered))
        (λ later'.
          if_lem IsCovered (same_state s.base.state TransferState.paused && s.interrupted) _ idle
            (λ back.
              if_lem IsCovered (not again.1) again.0 _ (λ refused. again-IsCovered)
                (λ resumed. start_run-IsCovered have again.0 again-IsCovered))
            (λ other'. idle-IsCovered))
