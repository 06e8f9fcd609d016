-- ===== src/Signaling/RoomRegistry.antt =====
-- packages/signaling/src/RoomRegistry.ts and HeartbeatMonitor.ts: the rooms of a signaling node, and the
-- sweep that drops the peers that stopped answering.
pub mod Open
pub mod Life
pub mod Disposed
use rtcforge.Map
use rtcforge.Map.{Map}
use rtcforge.Prelude.{
  ℕ, zero, suc, ◌+◌, ◌-◌, Bool, true, false, not, ◌&&◌, List, [], ◌∷◌, ◌++◌, Option, none, some,
  String, ◌==◌, ◌===◌, if◌then◌else◌, length, text_key,
}
use rtcforge.Signaling.Protocol.{normal, going_away, heartbeat_timeout}
use rtcforge.Signaling.Peer.{WebSocket, Peer, disconnect, is_alive, ping}
use rtcforge.Signaling.Peer.Utf16.{utf16}
use rtcforge.Signaling.Room.State.{
  Room, RoomEvent, RoomOptions, closed, peer_kicked, new_room, dispose,
}
use rtcforge.Signaling.Room.Leaving.{disconnect_and_remove}

pub data RegistryEvent : Type 0 where
  room_closed : String → RegistryEvent
  kicked : String → String → Option String → RegistryEvent

-- A room with the number of its making, which stands for the object's identity: what its `events` hold
-- has not been delivered to the registry yet.
pub record RoomRegistry (D S : Type 0) : Type 0 where
  pub rooms : Map String (ℕ × Room D S)
  pub room_opts : RoomOptions
  pub made : ℕ
  pub disposed : List (Room D S)
  pub events : List RegistryEvent

module _ {D S : Type 0} where
  unfoldable pub new_registry : RoomOptions → RoomRegistry D S
  new_registry opts = record { rooms = []; room_opts = opts; made = 0; disposed = []; events = [] }

  unfoldable pub count_peers : Map String (ℕ × Room D S) → ℕ
  count_peers [] = 0
  count_peers ((id, (n, room)) ∷ rooms) = length room.peers + count_peers rooms

  unfoldable pub total_peers : RoomRegistry D S → ℕ
  unfolding count_peers
  total_peers reg = count_peers reg.rooms

  -- The registry, and whether the room is new.
  unfoldable pub create_found :
      String → Option (ℕ × Room D S) → RoomRegistry D S → RoomRegistry D S × Bool
  unfolding new_room
  create_found id (some entry) reg = (reg, false)
  create_found id none reg = (
    record reg {
      rooms = Map.set id (reg.made, new_room id reg.room_opts) reg.rooms;
      made = suc reg.made;
    },
    true,
  )

  unfoldable pub get_or_create : String → RoomRegistry D S → RoomRegistry D S × Bool
  unfolding create_found
  get_or_create id reg = create_found id (Map.get id reg.rooms) reg

  -- Whether the entry is the room numbered `n`.
  abbrev pub is_same : ℕ → Option (ℕ × Room D S) → Bool
  is_same n none = false
  is_same n (some (m, room)) = m == n

  -- The listeners on the room `id` that was made as number `n`.
  unfoldable pub on_event : String → ℕ → RoomEvent D S → RoomRegistry D S → RoomRegistry D S
  on_event id n closed reg = record reg {
    rooms = if is_same n (Map.get id reg.rooms) then Map.delete id reg.rooms else reg.rooms;
    events = reg.events ++ (room_closed id ∷ []);
  }
  on_event id n (peer_kicked peer reason) reg = record reg {
    events = reg.events ++ (kicked id peer reason ∷ []);
  }
  on_event id n e reg = reg

  unfoldable pub on_events : String → ℕ → List (RoomEvent D S) → RoomRegistry D S → RoomRegistry D S
  unfolding on_event
  on_events id n [] reg = reg
  on_events id n (e ∷ es) reg = on_events id n es (on_event id n e reg)

  -- A registered room after an operation, whose events are delivered.
  unfoldable pub commit : String → ℕ → Room D S → RoomRegistry D S → RoomRegistry D S
  unfolding on_events
  commit id n room reg =
      on_events id n room.events
        (record reg { rooms = Map.set id (n, record room { events = [] }) reg.rooms })

  unfoldable pub rollback_found :
      String → Bool → Option (ℕ × Room D S) → RoomRegistry D S → RoomRegistry D S
  unfolding dispose
  rollback_found id was_new none reg = reg
  rollback_found id was_new (some (n, room)) reg =
      if was_new && length room.peers == 0
      then record reg {
        rooms = Map.delete id reg.rooms;
        disposed = reg.disposed ++ (dispose room ∷ []);
      }
      else reg

  unfoldable pub rollback_if_empty : String → Bool → RoomRegistry D S → RoomRegistry D S
  unfolding rollback_found
  rollback_if_empty id was_new reg = rollback_found id was_new (Map.get id reg.rooms) reg

  module _ (ws : WebSocket D S) where
    unfoldable pub disconnect_peers : String → Map String (Peer D S) → Map String (Peer D S)
    unfolding disconnect utf16
    disconnect_peers reason [] = []
    disconnect_peers reason ((id, p) ∷ peers) =
        (id, disconnect ws normal (utf16 reason) p) ∷ disconnect_peers reason peers

    -- The peers that are disconnected, and the rooms that are disposed of.
    unfoldable pub disconnect_rooms :
        String → Map String (ℕ × Room D S) → List (Peer D S) × List (Room D S)
    unfolding disconnect_peers dispose
    disconnect_rooms reason [] = ([], [])
    disconnect_rooms reason ((id, (n, room)) ∷ rooms) =
        let (peers, ended) = disconnect_rooms reason rooms in
        let shut = disconnect_peers reason room.peers in
        (Map.values shut ++ peers, dispose (record room { peers = shut }) ∷ ended)

    unfoldable pub disconnect_all : String → RoomRegistry D S → RoomRegistry D S × List (Peer D S)
    unfolding disconnect_rooms
    disconnect_all reason reg =
        let (peers, ended) = disconnect_rooms reason reg.rooms in
        (record reg { rooms = []; disposed = reg.disposed ++ ended }, peers)
