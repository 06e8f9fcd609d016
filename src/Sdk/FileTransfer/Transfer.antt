-- ===== src/Sdk/FileTransfer/Transfer.antt =====
-- packages/sdk/src/filetransfer/Transfer.ts and the types of types.ts and errors.ts that it uses:
-- the state machine that both directions of a transfer share.
-- An error is its code: messages and causes are left out.
pub mod Lifecycle
use rtcforge.Prelude.{
  ℕ, ◌+◌, Bool, true, false, not, ◌&&◌, ◌||◌, List, [], ◌∷◌, ◌++◌, Option, none, some, String, ltb,
  if◌then◌else◌, min,
}

pub data TransferState : Type 0 where
  idle offered accepted active paused completing completed failed cancelled : TransferState

pub data FileTransferErrorCode : Type 0 where
  offer_rejected checksum_mismatch was_cancelled sink_write_failed source_read_failed :
      FileTransferErrorCode
  channel_closed invalid_frame invalid_state timeout : FileTransferErrorCode

pub record FileMetadata : Type 0 where
  pub name : String
  pub mime_type : String
  pub size : ℕ

pub record TransferProgress : Type 0 where
  pub transfer_id : String
  pub transferred_bytes : ℕ
  pub total_bytes : ℕ
  pub transferred_chunks : ℕ
  pub total_chunks : ℕ

-- What a transfer emits.
pub data TransferEvent : Type 0 where
  state_changed : TransferState → TransferState → TransferEvent
  progress : TransferProgress → TransferEvent
  complete : TransferEvent
  error : FileTransferErrorCode → TransferEvent

pub record Transfer : Type 0 where
  pub id : String
  pub peer_id : String
  pub metadata : FileMetadata
  pub total_chunks : ℕ
  pub chunk_size : ℕ
  pub state : TransferState
  pub transferred_bytes : ℕ
  pub transferred_chunks : ℕ
  pub events : List TransferEvent

unfoldable pub new_transfer : String → String → FileMetadata → ℕ → ℕ → Transfer
new_transfer id peer_id metadata chunk_size total_chunks = record {
  id = id;
  peer_id = peer_id;
  metadata = metadata;
  total_chunks = total_chunks;
  chunk_size = chunk_size;
  state = idle;
  transferred_bytes = 0;
  transferred_chunks = 0;
  events = [];
}

-- `TERMINAL`
abbrev pub terminal : TransferState → Bool
terminal completed = true
terminal failed = true
terminal cancelled = true
terminal _ = false

-- `LEGAL_TRANSITIONS`
abbrev pub legal : TransferState → TransferState → Bool
legal idle offered = true
legal offered accepted = true
legal accepted active = true
legal active paused = true
legal active completing = true
legal paused active = true
legal completing completed = true
legal _ _ = false

-- `this._state === next`
abbrev pub same_state : TransferState → TransferState → Bool
same_state idle idle = true
same_state offered offered = true
same_state accepted accepted = true
same_state active active = true
same_state paused paused = true
same_state completing completing = true
same_state completed completed = true
same_state failed failed = true
same_state cancelled cancelled = true
same_state _ _ = false

-- `forcedTerminal`
abbrev pub forced : TransferState → Bool
forced failed = true
forced cancelled = true
forced _ = false

abbrev pub is_terminal : Transfer → Bool
is_terminal t = terminal t.state

unfoldable pub emit : TransferEvent → Transfer → Transfer
emit e t = record t { events = t.events ++ (e ∷ []) }

-- `progress`, without the ratio, which is a quotient of floating-point numbers.
abbrev pub snapshot : Transfer → TransferProgress
snapshot t = record {
  transfer_id = t.id;
  transferred_bytes = t.transferred_bytes;
  total_bytes = t.metadata.size;
  transferred_chunks = t.transferred_chunks;
  total_chunks = t.total_chunks;
}

unfoldable pub emit_progress : Transfer → Transfer
unfolding emit
emit_progress t = emit (progress (snapshot t)) t

-- What `transitionTo` finds: the state is there already, the move is refused, or it is made.
pub data Move : Type 0 where
  stay refuse go : Move

unfoldable pub move : TransferState → TransferState → Move
move from next =
    if same_state from next
    then stay
    else if terminal from
    then refuse
    else if not (forced next) && not (legal from next)
    then refuse
    else go

-- The Boolean that `transitionTo` returns.
abbrev pub succeeded : Move → Bool
succeeded refuse = false
succeeded _ = true

-- The change of state itself; the hook `_onTerminal` is run by the direction's own `transition_to`.
unfoldable pub enter : TransferState → Transfer → Transfer
unfolding emit
enter next t = emit (state_changed next t.state) (record t { state = next })

module _ {S : Type 0} (base : S → Transfer) (enter_in : TransferState → S → S)
    (on_terminal : S → S) where
  -- `transitionTo` of a subclass whose state is `S`: `enter_in` is `enter` on the shared part.
  unfoldable pub transition_by : TransferState → S → S × Bool
  unfolding move
  transition_by next s = elim (move (base s).state next) [
    | stay ↦ (s, true)
    | refuse ↦ (s, false)
    | go ↦ (if terminal next then on_terminal (enter_in next s) else enter_in next s, true)
  ]
