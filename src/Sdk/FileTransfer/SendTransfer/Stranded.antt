-- ===== src/Sdk/FileTransfer/SendTransfer/Stranded.antt =====
-- A run that settled while the transfer was paused.
use rtcforge.Prelude.{
  ℕ, Bool, true, false, ◌&&◌, List, [], Option, some, none, ◌≡◌, refl, arith, if◌then◌else◌,
  number_key,
}
use rtcforge.Sdk.FileTransfer.Transfer.{
  TransferState, TransferEvent, Move, stay, refuse, go, move, same_state, terminal, emit, enter,
  transition_by,
}
use rtcforge.Sdk.FileTransfer.SendTransfer.Methods.{Closed, is_completing}
use rtcforge.Sdk.FileTransfer.SendTransfer.Defs.{
  DataChannel, Run, SendTransfer, enter_in, emit_in, on_terminal, transition_to, begin_run,
  release_run,
}

-- Under way after the start, or failed or cancelled.
abbrev pub is_loose : TransferState → Bool
is_loose TransferState.active = true
is_loose TransferState.paused = true
is_loose TransferState.failed = true
is_loose TransferState.cancelled = true
is_loose _ = false

abbrev pub is_settled : Option Run → Bool
is_settled none = true
is_settled (some r) = r.settled

-- The run is over and has announced its end, though the transfer is not completing, and no reoffer is
-- expected.
pub record IsStranded {C : Type 0} (s : SendTransfer C) : Type 0 where
  pub loose : is_loose s.base.state ≡ true
  pub calm : s.interrupted ≡ false
  pub settled : is_settled s.run ≡ true
  pub quiet : s.finalizing ≡ []

loose-move :
    (from next : TransferState)
    → is_loose from ≡ true
    → is_completing next ≡ false
    → move from next ≡ go
    → is_loose next ≡ true
unfolding move
loose-move from next loose ready moved = ground arith

settled-release : (o : Option Run) → is_settled o ≡ true → is_settled (release_run o) ≡ true
unfolding release_run
settled-release none h = refl
settled-release (some r) h = h

module _ {C : Type 0} where
  pub if-IsStranded :
      (b : Bool) (s t : SendTransfer C)
      → (b ≡ true → IsStranded s)
      → (b ≡ false → IsStranded t)
      → IsStranded (if b then s else t)
  if-IsStranded true s t v w = v refl
  if-IsStranded false s t v w = w refl

  emit_in-IsStranded :
      (e : TransferEvent) (s : SendTransfer C) → IsStranded s → IsStranded (emit_in e s)
  unfolding emit_in emit
  emit_in-IsStranded e s v = record {
    loose = v.loose;
    calm = v.calm;
    settled = v.settled;
    quiet = v.quiet;
  }

  module _ (dc : DataChannel C) where
    pub transition_to-IsStranded :
        (next : TransferState) (s : SendTransfer C)
        → is_completing next ≡ false
        → IsStranded s
        → IsStranded (transition_to dc next s).0
    unfolding transition_to transition_by enter_in enter on_terminal emit
    transition_to-IsStranded next s ready v = by_move (move s.base.state next) refl
      where
        by_move :
            (m : Move)
            → move s.base.state next ≡ m
            → IsStranded
                (elim m as (λ _. SendTransfer C × Bool) [
                  | stay ↦ (s, true)
                  | refuse ↦ (s, false)
                  | go ↦ (
                    if terminal next then on_terminal dc (enter_in next s) else enter_in next s,
                    true,
                  )
                ]).0
        by_move stay e = v
        by_move refuse e = v
        by_move go e =
            let loose = loose-move s.base.state next v.loose ready e in
            if-IsStranded (terminal next) (on_terminal dc (enter_in next s)) (enter_in next s)
              (λ over. record { loose = loose; calm = v.calm; settled = refl; quiet = v.quiet })
              (λ going. record {
                loose = loose;
                calm = v.calm;
                settled = v.settled;
                quiet = v.quiet;
              })

    pub IsStranded-Closed : Closed dc IsStranded
    IsStranded-Closed = record {
      moves = transition_to-IsStranded;
      emits = emit_in-IsStranded;
      sends =
          λ m s v. record { loose = v.loose; calm = v.calm; settled = v.settled; quiet = v.quiet };
      timers =
          λ on s v. record { loose = v.loose; calm = v.calm; settled = v.settled; quiet = v.quiet };
      pends =
          λ on s v. record { loose = v.loose; calm = v.calm; settled = v.settled; quiet = v.quiet };
      releases = λ s v. record {
        loose = v.loose;
        calm = v.calm;
        settled = settled-release s.run v.settled;
        quiet = v.quiet;
      };
    }

    not_offered :
        (s : TransferState) → is_loose s ≡ true → same_state s TransferState.offered ≡ false
    not_offered s loose = ground arith

    pub begin_run-IsStranded :
        (have : List ℕ) (s : SendTransfer C) → IsStranded s → IsStranded (begin_run dc have s)
    unfolding begin_run
    begin_run-IsStranded have s v =
        if-IsStranded (same_state s.base.state TransferState.offered) _ _
          (λ offered'. absurd (ground (arith, not_offered s.base.state v.loose, offered')))
          (λ later.
            if-IsStranded (same_state s.base.state TransferState.paused && s.interrupted) _
              (record s { offer_timer = false }) (λ again. absurd (ground (arith, v.calm, again)))
              (λ idle. record {
                loose = v.loose;
                calm = v.calm;
                settled = v.settled;
                quiet = v.quiet;
              }))
