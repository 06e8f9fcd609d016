-- ===== src/Signaling/Room/Sending.antt =====
-- Room.ts: what the room sends to its peers.
use rtcforge.Map
use rtcforge.Map.{Map}
use rtcforge.Prelude.{
  Bool, true, false, List, [], ◌∷◌, Option, none, some, String, ◌===◌, if◌then◌else◌, text_key,
}
use rtcforge.Signaling.Protocol.{ServerMessage}
use rtcforge.Signaling.Peer.{WebSocket, Peer, send, set_role}
use rtcforge.Signaling.Room.State.{Room, peer_error, emit, reset_idle_timer}

abbrev pub is_excluded : Option String → String → Bool
is_excluded none id = false
is_excluded (some excluded) id = id === excluded

module _ {D S : Type 0} where
  module _ (ws : WebSocket D S) where
    -- The loop of `_sendToAll`: the peers afterwards, and the ids of those whose send threw.
    unfoldable pub send_loop :
        ServerMessage D
        → Option String
        → Map String (Peer D S)
        → Map String (Peer D S) × List String
    unfolding send
    send_loop msg excluded [] = ([], [])
    send_loop msg excluded ((id, p) ∷ peers) =
        let (rest, failed) = send_loop msg excluded peers in
        let (p', threw) = send ws msg p in
        if is_excluded excluded id
        then ((id, p) ∷ rest, failed)
        else ((id, p') ∷ rest, if threw then id ∷ failed else failed)

    unfoldable pub emit_errors : List String → Room D S → Room D S
    unfolding emit
    emit_errors [] r = r
    emit_errors (id ∷ ids) r = emit_errors ids (emit (peer_error id) r)

    -- `_sendToAll`
    unfoldable pub send_to_all : ServerMessage D → Option String → Room D S → Room D S × List String
    unfolding reset_idle_timer send_loop emit_errors
    send_to_all msg excluded r =
        let r' = reset_idle_timer r in
        let (peers, failed) = send_loop msg excluded r'.peers in
        (emit_errors failed (record r' { peers = peers }), failed)

    unfoldable pub broadcast : ServerMessage D → Room D S → Room D S × List String
    unfolding send_to_all
    broadcast msg r = send_to_all msg none r

    unfoldable pub broadcast_except : String → ServerMessage D → Room D S → Room D S × List String
    unfolding send_to_all
    broadcast_except excluded msg r = send_to_all msg (some excluded) r

    -- `relay`, on the recipient that it finds.
    unfoldable pub relay_found :
        String → String → D → Option (Peer D S) → Room D S → Room D S × Bool
    unfolding send emit
    relay_found from to payload none r = (r, false)
    relay_found from to payload (some peer) r =
        let (peer', threw) = send ws (ServerMessage.signal from payload) peer in
        let sent = record r { peers = Map.set to peer' r.peers } in
        if threw then (emit (peer_error to) sent, false) else (sent, true)

    unfoldable pub relay : String → String → D → Room D S → Room D S × Bool
    unfolding reset_idle_timer relay_found
    relay from to payload r =
        let r' = reset_idle_timer r in relay_found from to payload (Map.get to r'.peers) r'

    unfoldable pub set_role_found : String → String → Option (Peer D S) → Room D S → Room D S × Bool
    unfolding set_role broadcast
    set_role_found id role none r = (r, false)
    set_role_found id role (some peer) r = (
      (broadcast (ServerMessage.role_changed id role)
          (record r { peers = Map.set id (set_role role peer) r.peers })).0,
      true,
    )

    unfoldable pub set_peer_role : String → String → Room D S → Room D S × Bool
    unfolding set_role_found
    set_peer_role id role r = set_role_found id role (Map.get id r.peers) r
