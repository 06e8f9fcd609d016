-- ===== src/Signaling/Room/State.antt =====
-- Room.ts: the room's state, its timers and its events. A timer is whether it is armed. A peer in the
-- room is the object that the map holds; one that has left stands in the event of its leaving.
use rtcforge.Map.{Map}
use rtcforge.Prelude.{
  ℕ, Bool, true, false, ◌&&◌, List, [], ◌∷◌, ◌++◌, Option, none, some, String, leb, ◌===◌,
  if◌then◌else◌, text_key,
}
use rtcforge.Signaling.Protocol.{Dictionary, IceServerConfig}
use rtcforge.Signaling.Peer.{Peer, or_value}

pub data RoomState : Type 0 where
  creating active closing closed : RoomState

-- `LEGAL_TRANSITIONS`
abbrev pub legal : RoomState → RoomState → Bool
legal creating active = true
legal creating closing = true
legal creating closed = true
legal active closing = true
legal active closed = true
legal closing closed = true
legal _ _ = false

pub data RoomEvent (D S : Type 0) : Type 0 where
  peer_joined : Peer D S → RoomEvent D S
  peer_left : Peer D S → RoomEvent D S
  closed : RoomEvent D S
  peer_error : String → RoomEvent D S
  peer_kicked : String → Option String → RoomEvent D S

pub record Room (D S : Type 0) : Type 0 where
  pub id : String
  pub state : RoomState
  pub peers : Map String (Peer D S)
  pub max_peers : Option ℕ
  pub peer_meta : Map String Dictionary
  pub idle_timeout_ms : Option ℕ
  pub keep_alive_on_empty : Bool
  pub duration_timer : Bool
  pub idle_timer : Bool
  pub events : List (RoomEvent D S)

pub record RoomOptions : Type 0 where
  pub max_peers : Option ℕ
  pub max_duration_ms : Option ℕ
  pub idle_timeout_ms : Option ℕ
  pub keep_alive_on_empty : Option Bool

abbrev pub is_given {ℓ} : {A : Type ℓ} → Option A → Bool
is_given none = false
is_given (some a) = true

abbrev pub is_active : RoomState → Bool
is_active RoomState.active = true
is_active _ = false

-- `Closing` or `Closed`.
abbrev pub is_over : RoomState → Bool
is_over RoomState.closing = true
is_over RoomState.closed = true
is_over _ = false

-- `this._peers.size >= this.maxPeers`, if there is a limit.
abbrev pub is_full : Option ℕ → ℕ → Bool
is_full none size = false
is_full (some max) size = leb max size

abbrev pub non_empty : Dictionary → Bool
non_empty [] = false
non_empty (e ∷ es) = true

-- A role that is not the empty text.
abbrev pub given_role : String → Option String
given_role role = if role === "" then none else some role

abbrev pub given_servers : Option (List IceServerConfig) → Option (List IceServerConfig)
given_servers none = none
given_servers (some []) = none
given_servers (some (s ∷ ss)) = some (s ∷ ss)

module _ {D S : Type 0} where
  unfoldable pub new_room : String → RoomOptions → Room D S
  new_room id opts = record {
    id = id;
    state = creating;
    peers = [];
    max_peers = opts.max_peers;
    peer_meta = [];
    idle_timeout_ms = opts.idle_timeout_ms;
    keep_alive_on_empty = or_value opts.keep_alive_on_empty false;
    duration_timer = is_given opts.max_duration_ms;
    idle_timer = false;
    events = [];
  }

  unfoldable pub emit : RoomEvent D S → Room D S → Room D S
  emit e r = record r { events = r.events ++ (e ∷ []) }

  -- `_transitionTo`, whose result no caller reads. No state is legal after itself.
  unfoldable pub transition_to : RoomState → Room D S → Room D S
  transition_to next r = record r { state = if legal r.state next then next else r.state }

  unfoldable pub clear_timers : Room D S → Room D S
  clear_timers r = record r { duration_timer = false; idle_timer = false }

  unfoldable pub reset_idle_timer : Room D S → Room D S
  reset_idle_timer r = record r {
    idle_timer = if is_given r.idle_timeout_ms && is_active r.state then true else r.idle_timer;
  }

  unfoldable pub mark_activity : Room D S → Room D S
  unfolding reset_idle_timer
  mark_activity r = reset_idle_timer r

  unfoldable pub dispose : Room D S → Room D S
  unfolding clear_timers transition_to
  dispose r = record (transition_to RoomState.closed (clear_timers r)) {
    peers = [];
    peer_meta = [];
  }
