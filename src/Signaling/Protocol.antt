-- ===== src/Signaling/Protocol.antt =====
-- packages/signaling/src/protocol.ts and types.ts: the messages between the server and its clients, and
-- the codes and reasons of a close. `D` is the type of the payloads that the server passes on unread.
use rtcforge.Prelude.{ℕ, List, Option, String}

abbrev pub Dictionary : Type 0
Dictionary = List (String × String)

-- `urls`, `username`, `credential`: one address or several are a list.
pub record IceServerConfig : Type 0 where
  pub urls : List String
  pub username : Option String
  pub credential : Option String

pub record RoomJoined : Type 0 where
  pub version : Option ℕ
  pub room_id : String
  pub peer_id : String
  pub peers : List String
  pub peer_roles : Dictionary
  pub peer_metadata : List (String × Dictionary)
  pub local_role : Option String
  pub ice_servers : Option (List IceServerConfig)

pub data ServerMessage (D : Type 0) : Type 0 where
  room_joined : RoomJoined → ServerMessage D
  peer_joined : String → String → Dictionary → ServerMessage D
  peer_left : String → ServerMessage D
  presence_online : String → ServerMessage D
  presence_offline : String → ServerMessage D
  kicked : String → Option String → ServerMessage D
  signal : String → D → ServerMessage D
  broadcast : String → String → Option D → ℕ → ServerMessage D
  error : String → String → ServerMessage D
  ping : ServerMessage D
  role_changed : String → String → ServerMessage D

-- A message that passed the schema.
pub data ClientMessage (D : Type 0) : Type 0 where
  signal : String → D → ClientMessage D
  pong : ClientMessage D
  broadcast : String → Option D → ClientMessage D

abbrev pub protocol_version : ℕ
protocol_version = 1

-- `CloseCode`
abbrev pub normal : ℕ
normal = 1000

abbrev pub going_away : ℕ
going_away = 1001

abbrev pub policy_violation : ℕ
policy_violation = 1008

-- `CloseReason`
abbrev pub replaced_by_reconnection : String
replaced_by_reconnection = "Replaced by reconnection"

abbrev pub heartbeat_timeout : String
heartbeat_timeout = "Heartbeat timeout"

abbrev pub kicked_from_room : String
kicked_from_room = "Kicked from room"

abbrev pub room_full : String
room_full = "Room is full"

abbrev pub room_closing : String
room_closing = "Room is closing"

abbrev pub send_buffer_overflow : String
send_buffer_overflow = "Send buffer overflow"

abbrev pub room_expired : String
room_expired = "Room expired"
