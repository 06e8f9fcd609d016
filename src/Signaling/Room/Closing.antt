-- ===== src/Signaling/Room/Closing.antt =====
-- A room that closes says so.
use rtcforge.Map
use rtcforge.Map.{Map}
use rtcforge.Prelude.{
  ℕ, Bool, true, false, not, ◌&&◌, List, [], ◌∷◌, ◌++◌, Option, none, some, String, ◌≡◌, ◌≢◌, refl,
  sym, ap, ◌∙◌, inl, inr, arith, ◌==◌, length, text_key, Bool-cases,
}
use rtcforge.Signaling.Protocol.{ServerMessage, IceServerConfig}
use rtcforge.Signaling.Peer.{WebSocket, Peer, send}
use rtcforge.Signaling.Room.State.{
  Room, RoomState, RoomEvent, closed, peer_left, peer_joined, peer_kicked, emit, is_over, is_given,
  is_full, transition_to, reset_idle_timer,
}
use rtcforge.Signaling.Room.Sending.{broadcast_except}
use rtcforge.Signaling.Room.Joining.{
  add_found, add_peer, enter, settle, welcome, announce, unseat, seat, replace, roster,
}
use rtcforge.Signaling.Room.Leaving.{
  last_left, remove_found, remove_peer, kick_found, kick_peer, prune_found, disconnect_and_remove,
  closed_found, socket_closed, force_close,
}
use rtcforge.Signaling.Room.Invariant.{
  Sent-trans, emit-Sent, reset_idle_timer-Sent, broadcast-Sent, broadcast_except-Sent,
}
use rtcforge.Signaling.Room.Departures.{without}
use rtcforge.Signaling.Room.Arrivals.{activates, announce-Sent, replace-Sent}
use rtcforge.Signaling.Room.Life.{
  Step, adds, kicks, prunes, sockets, relays, broadcasts, forwards, marks, assigns, changes,
  expires, relay-Sent, set_peer_role-Sent, mark_activity-Sent,
}

active≢closed : RoomState.active ≢ RoomState.closed
active≢closed e = cc

module _ {D S : Type 0} where
  unfoldable pub has_closed : List (RoomEvent D S) → Bool
  has_closed [] = false
  has_closed (closed ∷ es) = true
  has_closed (e ∷ es) = has_closed es

  pub record Tells (r : Room D S) : Type 0 where
    pub tells : r.state ≡ RoomState.closed → has_closed r.events ≡ true

  has_closed-last : (es : List (RoomEvent D S)) → has_closed (es ++ (closed ∷ [])) ≡ true
  unfolding has_closed
  has_closed-last [] = refl
  has_closed-last (e ∷ es) = ground (arith, has_closed-last es)

  has_closed-append :
      (es fs : List (RoomEvent D S)) → has_closed es ≡ true → has_closed (es ++ fs) ≡ true
  unfolding has_closed
  has_closed-append [] fs h = absurd (cc)
  has_closed-append (e ∷ es) fs h = ground (arith, has_closed-append es fs)

  Tells-emit : (e : RoomEvent D S) (r : Room D S) → Tells r → Tells (emit e r)
  unfolding emit
  Tells-emit e r t = record { tells = λ over. has_closed-append r.events (e ∷ []) (t.tells over) }

  Tells-closed : (r : Room D S) → Tells (emit closed r)
  unfolding emit
  Tells-closed r = record { tells = λ over. has_closed-last r.events }

  Tells-going : (r r' : Room D S) → r'.state ≡ r.state → r.state ≢ RoomState.closed → Tells r'
  Tells-going r r' same going = record { tells = λ over. absurd (going (sym same ∙ over)) }

  module _ (ws : WebSocket D S) where
    remove_found-Tells :
        (id : String) (o : Option (Peer D S)) (r : Room D S)
        → r.state ≢ RoomState.closed
        → Tells (remove_found ws id o r)
    unfolding remove_found last_left
    remove_found-Tells id none r going = Tells-going r r refl going
    remove_found-Tells id (some peer) r going =
        let gone = without id r in
        let told = (broadcast_except ws id (ServerMessage.peer_left id) gone).0 in
        let sent = Sent-trans (broadcast_except-Sent ws id (ServerMessage.peer_left id) gone) (
          Sent-trans (broadcast_except-Sent ws id (ServerMessage.presence_offline id) told)
            (emit-Sent (peer_left peer) _)) in
        elim (Bool-cases (length gone.peers == 0 && not r.keep_alive_on_empty)) [
          | inl last ↦ rw last (Tells-closed _)
          | inr others ↦ rw others (Tells-going r _ sent.same_state going)
        ]

    remove_peer-Tells :
        (id : String) (r : Room D S) → r.state ≢ RoomState.closed → Tells (remove_peer ws id r)
    unfolding remove_peer
    remove_peer-Tells id r going = remove_found-Tells id (Map.get id r.peers) r going

    kick_found-Tells :
        (id : String) (reason : Option String) (o : Option (Peer D S)) (r : Room D S)
        → r.state ≢ RoomState.closed
        → Tells (kick_found ws id reason o r).0
    unfolding kick_found
    kick_found-Tells id reason none r going = Tells-going r r refl going
    kick_found-Tells id reason (some peer) r going =
        Tells-emit (peer_kicked id reason) _ (remove_peer-Tells id _ going)

    prune_found-Tells :
        (id : String) (code : ℕ) (reason : String) (o : Option (Peer D S)) (r : Room D S)
        → r.state ≢ RoomState.closed
        → Tells (prune_found ws id code reason o r).0
    unfolding prune_found
    prune_found-Tells id code reason none r going = Tells-going r r refl going
    prune_found-Tells id code reason (some peer) r going = remove_peer-Tells id _ going

    closed_found-Tells :
        (id : String) (conn : ℕ) (o : Option (Peer D S)) (r : Room D S)
        → r.state ≢ RoomState.closed
        → Tells (closed_found ws id conn o r)
    unfolding closed_found
    closed_found-Tells id conn none r going = Tells-going r r refl going
    closed_found-Tells id conn (some peer) r going = elim (Bool-cases (peer.conn == conn)) [
      | inl own ↦ rw own (remove_peer-Tells id r going)
      | inr other ↦ rw other (Tells-going r r refl going)
    ]

    force_close-Tells : (r : Room D S) → r.state ≢ RoomState.closed → Tells (force_close ws r)
    unfolding force_close
    force_close-Tells r going = elim (Bool-cases (is_over r.state)) [
      | inl over ↦ rw over (Tells-going r r refl going)
      | inr open' ↦ rw open' (Tells-closed _)
    ]

    welcome-Tells :
        (o : Option (Peer D S)) (id : String) (peer : Peer D S) (r : Room D S)
        → is_over r.state ≡ false
        → Tells (welcome ws o id peer r)
    unfolding welcome transition_to
    welcome-Tells o id peer r going =
        let joined : Room D S = record r { peers = Map.set id peer r.peers } in
        let told = announce ws o peer joined in
        let ready = transition_to RoomState.active told in
        let active =
          activates told.state (ap is_over (announce-Sent ws o peer joined).same_state ∙ going) in
        let kept =
          Sent-trans (reset_idle_timer-Sent ready)
            (emit-Sent (peer_joined peer) (reset_idle_timer ready)) in
        record { tells = λ over. absurd (active≢closed (sym (kept.same_state ∙ active) ∙ over)) }

    settle-Tells :
        (o : Option (Peer D S)) (id : String) (outcome : Peer D S × Bool) (r : Room D S)
        → is_over r.state ≡ false
        → r.state ≢ RoomState.closed
        → Tells (settle ws o id outcome r).0
    unfolding settle unseat
    settle-Tells o id (peer, true) r open' going = Tells-going r (unseat id r) refl going
    settle-Tells o id (peer, false) r open' going = welcome-Tells o id peer r open'

    enter-Tells :
        (o : Option (Peer D S)) (peer : Peer D S) (servers : Option (List IceServerConfig))
        (r : Room D S)
        → is_over r.state ≡ false
        → r.state ≢ RoomState.closed
        → Tells (enter ws o peer servers r).0
    unfolding enter seat
    enter-Tells o peer servers r open' going =
        let inside = seat peer (replace ws o r) in
        let same = (replace-Sent ws o r).same_state in
        settle-Tells o peer.id (send ws (roster peer servers inside) peer) inside
          (ap is_over same ∙ open') (λ e. going (sym same ∙ e))

    add_found-Tells :
        (o : Option (Peer D S)) (peer : Peer D S) (servers : Option (List IceServerConfig))
        (r : Room D S)
        → r.state ≢ RoomState.closed
        → Tells (add_found ws o peer servers r).0
    unfolding add_found
    add_found-Tells o peer servers r going = elim (Bool-cases (is_over r.state)) [
      | inl over ↦ rw over (Tells-going r r refl going)
      | inr open' ↦ elim (Bool-cases (not (is_given o) && is_full r.max_peers (length r.peers))) [
        | inl full ↦ rw (open', full) (Tells-going r r refl going)
        | inr free ↦ rw (open', free) (enter-Tells o peer servers r open' going)
      ]
    ]

    pub Step-Tells : {r r' : Room D S} → Step ws r r' → r.state ≢ RoomState.closed → Tells r'
    unfolding add_peer kick_peer disconnect_and_remove socket_closed
    Step-Tells (adds peer servers {r}) going =
        add_found-Tells (Map.get peer.id r.peers) peer servers r going
    Step-Tells (kicks id reason {r}) going = kick_found-Tells id reason (Map.get id r.peers) r going
    Step-Tells (prunes id code reason {r}) going =
        prune_found-Tells id code reason (Map.get id r.peers) r going
    Step-Tells (sockets id conn {r}) going = closed_found-Tells id conn (Map.get id r.peers) r going
    Step-Tells (relays from to payload {r}) going =
        Tells-going r _ (relay-Sent ws from to payload r).same_state going
    Step-Tells (broadcasts msg {r}) going =
        Tells-going r _ (broadcast-Sent ws msg r).same_state going
    Step-Tells (forwards excluded msg {r}) going =
        Tells-going r _ (broadcast_except-Sent ws excluded msg r).same_state going
    Step-Tells (marks {r}) going = Tells-going r _ (mark_activity-Sent ws r).same_state going
    Step-Tells (assigns id role {r}) going =
        Tells-going r _ (set_peer_role-Sent ws id role r).same_state going
    Step-Tells (changes id peer peer' {r} found) going =
        Tells-going r (record r { peers = Map.set id peer' r.peers }) refl going
    Step-Tells (expires {r}) going = force_close-Tells r going
