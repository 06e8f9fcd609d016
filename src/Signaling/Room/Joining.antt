-- ===== src/Signaling/Room/Joining.antt =====
-- Room.ts: how a peer is added.
use rtcforge.Map
use rtcforge.Map.{Map}
use rtcforge.Prelude.{
  Bool, not, ◌&&◌, List, [], ◌∷◌, Option, none, some, String, ◌===◌, if◌then◌else◌, length,
  text_key,
}
use rtcforge.Signaling.Protocol.{
  Dictionary, IceServerConfig, ServerMessage, protocol_version, normal, policy_violation,
  replaced_by_reconnection, room_full, room_closing,
}
use rtcforge.Signaling.Peer.{WebSocket, Peer, send, disconnect}
use rtcforge.Signaling.Peer.Utf16.{utf16}
use rtcforge.Signaling.Room.State.{
  Room, RoomState, peer_joined, peer_left, is_given, is_over, is_full, non_empty, given_role,
  given_servers, emit, transition_to, reset_idle_timer,
}
use rtcforge.Signaling.Room.Sending.{broadcast_except}

-- What `addPeer` does: the peer is in, or it is turned away, or the first send throws.
pub data Admission : Type 0 where
  admitted refused threw : Admission

abbrev pub add_role : String → Option String → Dictionary → Dictionary
add_role id none roles = roles
add_role id (some role) roles = (id, role) ∷ roles

module _ {D S : Type 0} where
  -- The ids and the roles of the peers other than `id`.
  unfoldable pub other_ids : String → Map String (Peer D S) → List String
  other_ids id [] = []
  other_ids id ((i, p) ∷ peers) =
      let rest = other_ids id peers in if i === id then rest else i ∷ rest

  unfoldable pub other_roles : String → Map String (Peer D S) → Dictionary
  other_roles id [] = []
  other_roles id ((i, p) ∷ peers) =
      let rest = other_roles id peers in
      if i === id then rest else add_role i (given_role p.role) rest

  -- What the room keeps of a new peer's metadata.
  unfoldable pub set_meta : Peer D S → Map String Dictionary → Map String Dictionary
  set_meta peer meta =
      if non_empty peer.metadata
      then Map.set peer.id peer.metadata meta
      else Map.delete peer.id meta

  unfoldable pub seat : Peer D S → Room D S → Room D S
  unfolding set_meta
  seat peer r = record r {
    peers = Map.set peer.id peer r.peers;
    peer_meta = set_meta peer r.peer_meta;
  }

  -- The rollback.
  unfoldable pub unseat : String → Room D S → Room D S
  unseat id r = record r { peers = Map.delete id r.peers; peer_meta = Map.delete id r.peer_meta }

  unfoldable pub roster : Peer D S → Option (List IceServerConfig) → Room D S → ServerMessage D
  unfolding other_ids other_roles
  roster peer servers r = ServerMessage.room_joined (record {
    version = some protocol_version;
    room_id = r.id;
    peer_id = peer.id;
    peers = other_ids peer.id r.peers;
    peer_roles = other_roles peer.id r.peers;
    peer_metadata = r.peer_meta;
    local_role = given_role peer.role;
    ice_servers = given_servers servers;
  })

  module _ (ws : WebSocket D S) where
    -- The existing connection is closed, and has left.
    unfoldable pub replace : Option (Peer D S) → Room D S → Room D S
    unfolding disconnect utf16 emit
    replace none r = r
    replace (some existing) r =
        emit (peer_left (disconnect ws normal (utf16 replaced_by_reconnection) existing)) r

    -- The announcement of a peer that was not in the room.
    unfoldable pub announce : Option (Peer D S) → Peer D S → Room D S → Room D S
    unfolding broadcast_except
    announce (some existing) peer r = r
    announce none peer r =
        (broadcast_except ws peer.id (ServerMessage.presence_online peer.id)
          (broadcast_except ws peer.id (ServerMessage.peer_joined peer.id peer.role peer.metadata)
            r).0).0

    -- The peer is in: the others are told, and the room is active.
    unfoldable pub welcome : Option (Peer D S) → String → Peer D S → Room D S → Room D S
    unfolding announce transition_to reset_idle_timer emit
    welcome existing id peer r = emit (peer_joined peer) (
        reset_idle_timer (
          transition_to RoomState.active
            (announce existing peer (record r { peers = Map.set id peer r.peers }))))

    -- After the first send to the peer, which may have thrown.
    unfoldable pub settle :
        Option (Peer D S) → String → Peer D S × Bool → Room D S → Room D S × Peer D S × Admission
    unfolding welcome unseat
    settle existing id (peer, failed) r =
        if failed then (unseat id r, peer, threw) else (welcome existing id peer r, peer, admitted)

    -- From the replacement of an existing connection on.
    unfoldable pub enter :
        Option (Peer D S)
        → Peer D S
        → Option (List IceServerConfig)
        → Room D S
        → Room D S × Peer D S × Admission
    unfolding replace seat roster send settle
    enter existing peer servers r =
        let inside = seat peer (replace existing r) in
        settle existing peer.id (send ws (roster peer servers inside) peer) inside

    unfoldable pub add_found :
        Option (Peer D S)
        → Peer D S
        → Option (List IceServerConfig)
        → Room D S
        → Room D S × Peer D S × Admission
    unfolding disconnect utf16 enter
    add_found existing peer servers r =
        if is_over r.state
        then (r, disconnect ws policy_violation (utf16 room_closing) peer, refused)
        else if not (is_given existing) && is_full r.max_peers (length r.peers)
        then (r, disconnect ws policy_violation (utf16 room_full) peer, refused)
        else enter existing peer servers r

    unfoldable pub add_peer :
        Peer D S → Option (List IceServerConfig) → Room D S → Room D S × Peer D S × Admission
    unfolding add_found
    add_peer peer servers r = add_found (Map.get peer.id r.peers) peer servers r
