-- ===== src/Signaling/Room/Rejoin.antt =====
-- A reconnection whose first send fails.
use rtcforge.Map
use rtcforge.Map.{Map}
use rtcforge.Prelude.{
  true, false, List, [], ◌∷◌, ◌++◌, Option, some, String, ◌≡◌, ap, ◌∙◌, text_key, same_self,
}
use rtcforge.Signaling.Protocol.{ServerMessage, IceServerConfig, normal, replaced_by_reconnection}
use rtcforge.Signaling.Peer.{WebSocket, Peer, send, disconnect}
use rtcforge.Signaling.Peer.Utf16.{utf16}
use rtcforge.Signaling.Room.State.{Room, RoomState, peer_left, is_over, emit}
use rtcforge.Signaling.Room.Joining.{
  threw, add_found, add_peer, enter, settle, unseat, seat, replace, roster,
}

module _ {D S : Type 0} (ws : WebSocket D S) where
  send-shut :
      (msg : ServerMessage D) (peer : Peer D S)
      → ws.is_open peer.ws ≡ false
      → send ws msg peer ≡ (peer, true)
  unfolding send
  send-shut msg peer shut = rw shut

  get-single : (id : String) (old : Peer D S) → Map.get id ((id, old) ∷ []) ≡ some old
  unfolding Map.get
  get-single id old = rw (same_self id)

  delete-set-single :
      (id : String) (old peer : Peer D S) → Map.delete id (Map.set id peer ((id, old) ∷ [])) ≡ []
  unfolding Map.set Map.delete
  delete-set-single id old peer = rw (same_self id) (rw (same_self id))

  add_found-rejoin :
      (peer old : Peer D S) (servers : Option (List IceServerConfig)) (r : Room D S)
      → r.state ≡ RoomState.active
      → ws.is_open peer.ws ≡ false
      → add_found ws (some old) peer servers r
        ≡ (unseat peer.id (seat peer (replace ws (some old) r)), peer, threw)
  unfolding add_found enter settle
  add_found-rejoin peer old servers r active shut =
      let going : is_over r.state ≡ false = ap is_over active in
      let inside = seat peer (replace ws (some old) r) in
      let failed = send-shut (roster peer servers inside) peer shut in rw (going, failed)

  -- If the only peer of an active room reconnects over a socket that is shut by then, the peer is
  -- rolled back and the room is left active with nobody in it: it does not close, and the log gains the
  -- leaving of the old connection only, also where the room is not kept when empty.
  pub rejoin_strands :
      (peer old : Peer D S) (servers : Option (List IceServerConfig)) (r : Room D S)
      → r.peers ≡ (peer.id, old) ∷ []
      → r.state ≡ RoomState.active
      → ws.is_open peer.ws ≡ false
      → ((add_peer ws peer servers r).2 ≡ threw)
        × ((add_peer ws peer servers r).0.peers ≡ [])
        × ((add_peer ws peer servers r).0.state ≡ RoomState.active)
        × ((add_peer ws peer servers r).0.events
            ≡ r.events
              ++ (peer_left (disconnect ws normal (utf16 replaced_by_reconnection) old) ∷ []))
  unfolding add_peer unseat seat replace emit
  rejoin_strands peer old servers r only active shut =
      let found = ap (Map.get peer.id) only ∙ get-single peer.id old in
      let out =
        ap (λ o. add_found ws o peer servers r) found
        ∙ add_found-rejoin peer old servers r active shut in
      (
        ap (λ x. x.2) out,
        ap (λ x. x.0.peers) out
            ∙ ap (λ m. Map.delete peer.id (Map.set peer.id peer m)) only
            ∙ delete-set-single peer.id old peer,
        ap (λ x. x.0.state) out ∙ active,
        ap (λ x. x.0.events) out,
      )
