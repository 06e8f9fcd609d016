-- ===== src/Signaling/Room/Life.antt =====
-- The life of a room: any sequence of its operations.
use rtcforge.Map
use rtcforge.Map.{Map, Distinct}
use rtcforge.Prelude.{
  ℕ, true, List, [], Option, none, some, String, ◌≡◌, refl, ap, ◌∙◌, inl, inr, arith, text_key,
  Bool-cases,
}
use rtcforge.Signaling.Protocol.{ServerMessage, IceServerConfig}
use rtcforge.Signaling.Peer.{WebSocket, Peer, send, set_role}
use rtcforge.Signaling.Room.State.{
  Room, RoomState, RoomOptions, peer_error, is_over, new_room, mark_activity, reset_idle_timer,
  dispose, transition_to, clear_timers,
}
use rtcforge.Signaling.Room.Sending.{
  broadcast, broadcast_except, relay_found, relay, set_role_found, set_peer_role,
}
use rtcforge.Signaling.Room.Joining.{add_found, add_peer}
use rtcforge.Signaling.Room.Leaving.{
  kick_found, prune_found, closed_found, kick_peer, disconnect_and_remove, socket_closed,
  force_close,
}
use rtcforge.Signaling.Room.Invariant.{
  IsValid, Sent, Sent-IsValid, Sent-trans, Sent-refl, emit-Sent, reset_idle_timer-Sent,
  broadcast-Sent, broadcast_except-Sent,
}
use rtcforge.Signaling.Room.Departures.{
  IsWithin-zero, member-Sent, kick_found-IsValid, prune_found-IsValid, closed_found-IsValid,
  force_close-IsValid, dispose-IsValid,
}
use rtcforge.Signaling.Room.Arrivals.{add_peer-IsValid}

module _ {D S : Type 0} (ws : WebSocket D S) where
  relay_found-Sent :
      (from to : String) (payload : D) (o : Option (Peer D S)) (r : Room D S)
      → Map.get to r.peers ≡ o
      → Sent r (relay_found ws from to payload o r).0
  unfolding relay_found
  relay_found-Sent from to payload none r found = Sent-refl r
  relay_found-Sent from to payload (some peer) r found =
      let outcome = send ws (ServerMessage.signal from payload) peer in
      let kept = member-Sent ws to peer outcome.0 r found in
      elim (Bool-cases outcome.1) [
        | inl threw' ↦ rw threw' (Sent-trans kept (emit-Sent (peer_error to) _))
        | inr fine ↦ rw fine kept
      ]

  pub relay-Sent :
      (from to : String) (payload : D) (r : Room D S) → Sent r (relay ws from to payload r).0
  unfolding relay
  relay-Sent from to payload r =
      let r' = reset_idle_timer r in
      Sent-trans (reset_idle_timer-Sent r)
        (relay_found-Sent from to payload (Map.get to r'.peers) r' refl)

  set_role_found-Sent :
      (id role : String) (o : Option (Peer D S)) (r : Room D S)
      → Map.get id r.peers ≡ o
      → Sent r (set_role_found ws id role o r).0
  unfolding set_role_found
  set_role_found-Sent id role none r found = Sent-refl r
  set_role_found-Sent id role (some peer) r found =
      Sent-trans (member-Sent ws id peer (set_role role peer) r found)
        (broadcast-Sent ws (ServerMessage.role_changed id role) _)

  pub set_peer_role-Sent : (id role : String) (r : Room D S) → Sent r (set_peer_role ws id role r).0
  unfolding set_peer_role
  set_peer_role-Sent id role r = set_role_found-Sent id role (Map.get id r.peers) r refl

  pub mark_activity-Sent : (r : Room D S) → Sent r (mark_activity r)
  unfolding mark_activity
  mark_activity-Sent r = reset_idle_timer-Sent r

  -- An operation of the room, a timer that fires, or a change of a member's own state: what its socket
  -- does, or a message that it handles.
  pub data Step : Room D S → Room D S → Type 0 where
    adds :
        (peer : Peer D S) (servers : Option (List IceServerConfig)) {r : Room D S}
        → Step r (add_peer ws peer servers r).0
    kicks :
        (id : String) (reason : Option String) {r : Room D S} → Step r (kick_peer ws id reason r).0
    prunes :
        (id : String) (code : ℕ) (reason : String) {r : Room D S}
        → Step r (disconnect_and_remove ws id code reason r).0
    sockets : (id : String) (conn : ℕ) {r : Room D S} → Step r (socket_closed ws id conn r)
    relays : (from to : String) (payload : D) {r : Room D S} → Step r (relay ws from to payload r).0
    broadcasts : (msg : ServerMessage D) {r : Room D S} → Step r (broadcast ws msg r).0
    forwards :
        (excluded : String) (msg : ServerMessage D) {r : Room D S}
        → Step r (broadcast_except ws excluded msg r).0
    marks : {r : Room D S} → Step r (mark_activity r)
    assigns : (id role : String) {r : Room D S} → Step r (set_peer_role ws id role r).0
    changes :
        (id : String) (peer peer' : Peer D S) {r : Room D S}
        → Map.get id r.peers ≡ some peer
        → Step r (record r { peers = Map.set id peer' r.peers })
    expires : {r : Room D S} → Step r (force_close ws r)

  pub data Reach (r : Room D S) : Room D S → Type 0 where
    here : Reach r r
    next : {s t : Room D S} → Reach r s → Step s t → Reach r t
    disposed : {s : Room D S} → Reach r s → Reach r (dispose s)

  pub Step-IsValid : {r r' : Room D S} → Step r r' → IsValid r → IsValid r'
  unfolding kick_peer disconnect_and_remove socket_closed
  Step-IsValid (adds peer servers {r}) v = add_peer-IsValid ws peer servers r v
  Step-IsValid (kicks id reason {r}) v =
      kick_found-IsValid ws id reason (Map.get id r.peers) r refl v
  Step-IsValid (prunes id code reason {r}) v =
      prune_found-IsValid ws id code reason (Map.get id r.peers) r refl v
  Step-IsValid (sockets id conn {r}) v = closed_found-IsValid ws id conn (Map.get id r.peers) r v
  Step-IsValid (relays from to payload {r}) v = Sent-IsValid (relay-Sent from to payload r) v
  Step-IsValid (broadcasts msg {r}) v = Sent-IsValid (broadcast-Sent ws msg r) v
  Step-IsValid (forwards excluded msg {r}) v =
      Sent-IsValid (broadcast_except-Sent ws excluded msg r) v
  Step-IsValid (marks {r}) v = Sent-IsValid (mark_activity-Sent r) v
  Step-IsValid (assigns id role {r}) v = Sent-IsValid (set_peer_role-Sent id role r) v
  Step-IsValid (changes id peer peer' {r} found) v =
      Sent-IsValid (member-Sent ws id peer peer' r found) v
  Step-IsValid (expires {r}) v = force_close-IsValid ws r v

  pub new_room-IsValid :
      (id : String) (opts : RoomOptions) → IsValid (new_room {D = D} {S = S} id opts)
  unfolding new_room Map.has
  new_room-IsValid id opts = record {
    distinct = tt;
    within = IsWithin-zero opts.max_peers;
    distinct_meta = tt;
    known_meta = λ j absent. refl;
    not_closing = λ e. cc;
    over_empty = λ e. refl;
    fresh_empty = λ e. refl;
    over_quiet = λ e. absurd (cc);
    idle_active = λ e. absurd (cc);
  }

  -- Whatever happens to a room, it never holds more peers than its limit nor one id twice, remembers
  -- metadata of its members only, runs its idle timer only while it is active, and once it is closed
  -- has neither peers nor timers.
  pub Room-IsValid :
      (id : String) (opts : RoomOptions) (r : Room D S) → Reach (new_room id opts) r → IsValid r
  Room-IsValid id opts r here = new_room-IsValid id opts
  Room-IsValid id opts r (next path step) = Step-IsValid step (Room-IsValid id opts _ path)
  Room-IsValid id opts r (disposed {s} path) = dispose-IsValid s (Room-IsValid id opts s path)

  over_of_closed : (s : RoomState) → s ≡ RoomState.closed → is_over s ≡ true
  over_of_closed s e = rw e

  closed-get :
      (id : String) (r : Room D S)
      → IsValid r
      → r.state ≡ RoomState.closed
      → Map.get id r.peers ≡ none
  unfolding Map.get
  closed-get id r v over = ap (Map.get id) (v.over_empty over)

  pub add_found-over :
      (o : Option (Peer D S)) (peer : Peer D S) (servers : Option (List IceServerConfig))
      (r : Room D S)
      → is_over r.state ≡ true
      → (add_found ws o peer servers r).0 ≡ r
  unfolding add_found
  add_found-over o peer servers r over = rw over

  force_close-over : (r : Room D S) → is_over r.state ≡ true → force_close ws r ≡ r
  unfolding force_close
  force_close-over r over = rw over

  dispose-state : (r : Room D S) → r.state ≡ RoomState.closed → (dispose r).state ≡ RoomState.closed
  unfolding dispose transition_to clear_timers
  dispose-state r e = ground arith

  Step-closed :
      {r r' : Room D S}
      → Step r r'
      → IsValid r
      → r.state ≡ RoomState.closed
      → r'.state ≡ RoomState.closed
  unfolding kick_peer disconnect_and_remove socket_closed add_peer kick_found prune_found
      closed_found
  Step-closed (adds peer servers {r}) v e =
      ap (λ s. s.state)
        (add_found-over (Map.get peer.id r.peers) peer servers r (over_of_closed r.state e))
      ∙ e
  Step-closed (kicks id reason {r}) v e = rw (closed-get id r v e) e
  Step-closed (prunes id code reason {r}) v e = rw (closed-get id r v e) e
  Step-closed (sockets id conn {r}) v e = rw (closed-get id r v e) e
  Step-closed (relays from to payload {r}) v e = (relay-Sent from to payload r).same_state ∙ e
  Step-closed (broadcasts msg {r}) v e = (broadcast-Sent ws msg r).same_state ∙ e
  Step-closed (forwards excluded msg {r}) v e =
      (broadcast_except-Sent ws excluded msg r).same_state ∙ e
  Step-closed (marks {r}) v e = (mark_activity-Sent r).same_state ∙ e
  Step-closed (assigns id role {r}) v e = (set_peer_role-Sent id role r).same_state ∙ e
  Step-closed (changes id peer peer' {r} found) v e = e
  Step-closed (expires {r}) v e =
      ap (λ s. s.state) (force_close-over r (over_of_closed r.state e)) ∙ e

  -- A closed room never opens again and takes nobody in, whatever happens to it.
  pub closed_is_final :
      {r r' : Room D S}
      → IsValid r
      → r.state ≡ RoomState.closed
      → Reach r r'
      → (r'.state ≡ RoomState.closed) × (r'.peers ≡ [])
  closed_is_final {r} v e path = let (v', e') = go path in (e', v'.over_empty e')
    where
      go : {t : Room D S} → Reach r t → IsValid t × (t.state ≡ RoomState.closed)
      go here = (v, e)
      go (next path step) = let (v', e') = go path in (Step-IsValid step v', Step-closed step v' e')
      go (disposed {s} path) = let (v', e') = go path in (dispose-IsValid s v', dispose-state s e')
