-- ===== src/Signaling/Room/Leaving.antt =====
-- Room.ts: how peers leave, and how the room closes.
use rtcforge.Map
use rtcforge.Map.{Map}
use rtcforge.Prelude.{
  ℕ, Bool, true, false, not, ◌&&◌, [], ◌∷◌, Option, none, some, String, ◌==◌, if◌then◌else◌, length,
  text_key,
}
use rtcforge.Signaling.Protocol.{
  ServerMessage, normal, policy_violation, kicked_from_room, room_expired,
}
use rtcforge.Signaling.Peer.{WebSocket, Peer, send, disconnect, or_value}
use rtcforge.Signaling.Peer.Utf16.{utf16}
use rtcforge.Signaling.Room.State.{
  Room, RoomState, peer_left, closed, peer_kicked, is_over, emit, transition_to, clear_timers,
}
use rtcforge.Signaling.Room.Sending.{broadcast, broadcast_except}

module _ {D S : Type 0} where
  -- The last peer has left a room that is not kept: it closes.
  unfoldable pub last_left : Peer D S → Room D S → Room D S
  unfolding emit transition_to clear_timers
  last_left peer r = emit closed (
      transition_to RoomState.closed
        (emit (peer_left peer) (transition_to RoomState.closing (clear_timers r))))

  module _ (ws : WebSocket D S) where
    -- `removePeer` on the peer that it finds.
    unfoldable pub remove_found : String → Option (Peer D S) → Room D S → Room D S
    unfolding last_left emit broadcast_except
    remove_found id none r = r
    remove_found id (some peer) r =
        let gone = record r {
          peers = Map.delete id r.peers;
          peer_meta = Map.delete id r.peer_meta;
        } in
        let told =
          (broadcast_except ws id (ServerMessage.presence_offline id)
            (broadcast_except ws id (ServerMessage.peer_left id) gone).0).0 in
        if length gone.peers == 0 && not r.keep_alive_on_empty
        then last_left peer gone
        else emit (peer_left peer) told

    unfoldable pub remove_peer : String → Room D S → Room D S
    unfolding remove_found
    remove_peer id r = remove_found id (Map.get id r.peers) r

    unfoldable pub kick_found :
        String → Option String → Option (Peer D S) → Room D S → Room D S × Bool
    unfolding send disconnect utf16 remove_peer emit
    kick_found id reason none r = (r, false)
    kick_found id reason (some peer) r =
        let (told, threw) = send ws (ServerMessage.kicked id reason) peer in
        let shut = disconnect ws policy_violation (utf16 (or_value reason kicked_from_room)) told in
        (
          emit (peer_kicked id reason)
              (remove_peer id (record r { peers = Map.set id shut r.peers })),
          true,
        )

    unfoldable pub kick_peer : String → Option String → Room D S → Room D S × Bool
    unfolding kick_found
    kick_peer id reason r = kick_found id reason (Map.get id r.peers) r

    unfoldable pub prune_found :
        String → ℕ → String → Option (Peer D S) → Room D S → Room D S × Bool
    unfolding disconnect utf16 remove_peer
    prune_found id code reason none r = (r, false)
    prune_found id code reason (some peer) r = (
      remove_peer id
          (record r { peers = Map.set id (disconnect ws code (utf16 reason) peer) r.peers }),
      true,
    )

    unfoldable pub disconnect_and_remove : String → ℕ → String → Room D S → Room D S × Bool
    unfolding prune_found
    disconnect_and_remove id code reason r = prune_found id code reason (Map.get id r.peers) r

    -- The listener that `addPeer` puts on the peer's `Disconnected`: it removes the peer unless another
    -- connection has taken its place.
    unfoldable pub closed_found : String → ℕ → Option (Peer D S) → Room D S → Room D S
    unfolding remove_peer
    closed_found id conn none r = r
    closed_found id conn (some peer) r = if peer.conn == conn then remove_peer id r else r

    unfoldable pub socket_closed : String → ℕ → Room D S → Room D S
    unfolding closed_found
    socket_closed id conn r = closed_found id conn (Map.get id r.peers) r

    -- The loop of `_forceClose` over the peers.
    unfoldable pub expel : Map String (Peer D S) → Room D S → Room D S
    unfolding disconnect utf16 emit
    expel [] r = r
    expel ((id, p) ∷ peers) r =
        expel peers (emit (peer_left (disconnect ws normal (utf16 room_expired) p)) r)

    -- `_forceClose`, which the timers call.
    unfoldable pub force_close : Room D S → Room D S
    unfolding transition_to clear_timers broadcast expel emit
    force_close r =
        let ending = clear_timers (transition_to RoomState.closing r) in
        let told = (broadcast ws (ServerMessage.error "ROOM_EXPIRED" room_expired) ending).0 in
        let emptied = record told { peers = []; peer_meta = [] } in
        let over = emit closed (transition_to RoomState.closed (expel told.peers emptied)) in
        if is_over r.state then r else over
