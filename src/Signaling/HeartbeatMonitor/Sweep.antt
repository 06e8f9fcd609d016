-- ===== src/Signaling/HeartbeatMonitor/Sweep.antt =====
-- Whom a sweep drops.
use rtcforge.Map
use rtcforge.Map.{Map, Distinct, contains}
use rtcforge.Map.Laws.{
  contains-keys, has-delete_self, has-delete_ne, get-eq-none_of_not_has, set-Distinct,
  not_has_of_get,
}
use rtcforge.Prelude.{
  ℕ, ◌-◌, Bool, false, not, ◌&&◌, [], ◌∷◌, Option, none, some, String, ◌≡◌, refl, sym, ap, subst,
  ◌∙◌, inl, inr, arith, ◌==◌, ◌===◌, length, text_key, Bool-cases, eq_of_same, ne_of_same,
  same_self,
}
use rtcforge.Signaling.Protocol.{ServerMessage, going_away, heartbeat_timeout}
use rtcforge.Signaling.Peer.{WebSocket, Peer, is_alive, ping, disconnect}
use rtcforge.Signaling.Peer.Utf16.{utf16}
use rtcforge.Signaling.Room.State.{Room, peer_left}
use rtcforge.Signaling.Room.Sending.{broadcast_except}
use rtcforge.Signaling.Room.Leaving.{
  last_left, remove_found, remove_peer, prune_found, disconnect_and_remove,
}
use rtcforge.Signaling.Room.Invariant.{
  IsValid, Sent, Sent-IsValid, Sent-trans, Sent-refl, emit-Sent, broadcast_except-Sent,
}
use rtcforge.Signaling.Room.Departures.{without, member-Sent, prune_found-IsValid}
use rtcforge.Signaling.HeartbeatMonitor.{ping_found, check, check_all, tick}

has-delete :
    {V : Type 0} (i j : String) (m : Map String V)
    → Distinct (Map.keys m)
    → Map.has j (Map.delete i m) ≡ (Map.has j m && not (i === j))
has-delete i j m d = elim (Bool-cases (i === j)) [
  | inl same ↦
      subst (λ k. Map.has k (Map.delete i m) ≡ (Map.has k m && not (i === k))) (eq_of_same i j same)
        (ground (arith, has-delete_self i m d, same_self i))
  | inr other ↦ ground (arith, has-delete_ne i j m (ne_of_same i j other))
]

absent_and :
    {V : Type 0} (i j : String) (m : Map String V)
    → Map.get i m ≡ none
    → Map.has j m ≡ (Map.has j m && not (i === j))
absent_and i j m absent = elim (Bool-cases (i === j)) [
  | inl same ↦
      subst (λ k. Map.has k m ≡ (Map.has k m && not (i === k))) (eq_of_same i j same)
        (ground (arith, not_has_of_get i m absent))
  | inr other ↦ ground arith
]

absent_of_head :
    {V : Type 0} (i j : String) (m : Map String V)
    → contains i (Map.keys m) ≡ false
    → i ≡ j
    → Map.get j m ≡ none
absent_of_head i j m absent same =
    subst (λ k. Map.get k m ≡ none) same
      (get-eq-none_of_not_has i m (sym (contains-keys i m) ∙ absent))

module _ {D S : Type 0} where
  -- Whether the peer that was found has not answered in time.
  abbrev pub is_stale : ℕ → Option (Peer D S) → Bool
  is_stale deadline none = false
  is_stale deadline (some peer) = not (is_alive deadline peer)

  has-Sent : {r r' : Room D S} (j : String) → Sent r r' → Map.has j r'.peers ≡ Map.has j r.peers
  has-Sent {r} {r'} j s =
      sym (contains-keys j r'.peers) ∙ ap (contains j) s.same_keys ∙ contains-keys j r.peers

  module _ (ws : WebSocket D S) where
    has-remove_found :
        (id j : String) (o : Option (Peer D S)) (r : Room D S)
        → Map.get id r.peers ≡ o
        → Distinct (Map.keys r.peers)
        → Map.has j (remove_found ws id o r).peers ≡ (Map.has j r.peers && not (id === j))
    unfolding remove_found last_left
    has-remove_found id j none r found d = absent_and id j r.peers found
    has-remove_found id j (some peer) r found d =
        let gone = without id r in
        let told = (broadcast_except ws id (ServerMessage.peer_left id) gone).0 in
        let sent = Sent-trans (broadcast_except-Sent ws id (ServerMessage.peer_left id) gone) (
          Sent-trans (broadcast_except-Sent ws id (ServerMessage.presence_offline id) told)
            (emit-Sent (peer_left peer) _)) in
        let less = has-delete id j r.peers d in
        elim (Bool-cases (length gone.peers == 0 && not r.keep_alive_on_empty)) [
          | inl last ↦ rw last less
          | inr others ↦ rw others (has-Sent j sent ∙ less)
        ]

    has-prune_found :
        (id j : String) (code : ℕ) (reason : String) (o : Option (Peer D S)) (r : Room D S)
        → Map.get id r.peers ≡ o
        → Distinct (Map.keys r.peers)
        → Map.has j (prune_found ws id code reason o r).0.peers
          ≡ (Map.has j r.peers && not (id === j))
    unfolding prune_found remove_peer
    has-prune_found id j code reason none r found d = absent_and id j r.peers found
    has-prune_found id j code reason (some peer) r found d =
        let shut = disconnect ws code (utf16 reason) peer in
        let r' : Room D S = record r { peers = Map.set id shut r.peers } in
        has-remove_found id j (Map.get id r'.peers) r' refl (set-Distinct id shut r.peers d)
        ∙ ap (λ b. b && not (id === j)) (has-Sent j (member-Sent ws id peer shut r found))

    ping_found-Sent :
        (id : String) (o : Option (Peer D S)) (r : Room D S)
        → Map.get id r.peers ≡ o
        → Sent r (ping_found ws id o r)
    unfolding ping_found
    ping_found-Sent id none r found = Sent-refl r
    ping_found-Sent id (some peer) r found = member-Sent ws id peer (ping ws peer) r found

    check-IsValid :
        (deadline : ℕ) (id : String) (peer : Peer D S) (r : Room D S)
        → IsValid r
        → IsValid (check ws deadline id peer r)
    unfolding check disconnect_and_remove
    check-IsValid deadline id peer r v = elim (Bool-cases (is_alive deadline peer)) [
      | inl alive ↦ rw alive (Sent-IsValid (ping_found-Sent id (Map.get id r.peers) r refl) v)
      | inr late ↦
          rw late
            (prune_found-IsValid ws id going_away heartbeat_timeout (Map.get id r.peers) r refl v)
    ]

    has-check :
        (deadline : ℕ) (id j : String) (peer : Peer D S) (r : Room D S)
        → IsValid r
        → Map.has j (check ws deadline id peer r).peers
          ≡ (Map.has j r.peers && not (id === j && not (is_alive deadline peer)))
    unfolding check disconnect_and_remove
    has-check deadline id j peer r v = elim (Bool-cases (is_alive deadline peer)) [
      | inl alive ↦
          ground (arith, has-Sent j (ping_found-Sent id (Map.get id r.peers) r refl), alive)
      | inr late ↦ ground (
        arith,
        has-prune_found id j going_away heartbeat_timeout (Map.get id r.peers) r refl v.distinct,
        late,
      )
    ]

    check_all-IsValid :
        (deadline : ℕ) (peers : Map String (Peer D S)) (r : Room D S)
        → IsValid r
        → IsValid (check_all ws deadline peers r)
    unfolding check_all
    check_all-IsValid deadline [] r v = v
    check_all-IsValid deadline ((id, peer) ∷ peers) r v =
        check_all-IsValid deadline peers (check ws deadline id peer r)
          (check-IsValid deadline id peer r v)

    has-check_all :
        (deadline : ℕ) (j : String) (peers : Map String (Peer D S)) (r : Room D S)
        → Distinct (Map.keys peers)
        → IsValid r
        → Map.has j (check_all ws deadline peers r).peers
          ≡ (Map.has j r.peers && not (is_stale deadline (Map.get j peers)))
    unfolding check_all Map.get
    has-check_all deadline j [] r d v = ground arith
    has-check_all deadline j ((id, peer) ∷ peers) r d v =
        let rest =
          has-check_all deadline j peers (check ws deadline id peer r) d.1
            (check-IsValid deadline id peer r v) in
        let first = has-check deadline id j peer r v in
        elim (Bool-cases (id === j)) [
          | inl same ↦
              let other = absent_of_head id j peers d.0 (eq_of_same id j same) in
              ground (arith, rest, first, other, same)
          | inr other ↦ ground (arith, rest, first, other)
        ]

    -- After a sweep of a valid room, the peers in it are exactly those that were in it and answered
    -- within the timeout, and the room is still valid.
    pub tick_lem :
        (now pong_timeout_ms : ℕ) (r : Room D S)
        → IsValid r
        → IsValid (tick ws now pong_timeout_ms r)
          × ((id : String)
              → Map.has id (tick ws now pong_timeout_ms r).peers ≡ (
                  Map.has id r.peers
                  && not (is_stale (now - pong_timeout_ms) (Map.get id r.peers))))
    unfolding tick
    tick_lem now pong_timeout_ms r v = (
      check_all-IsValid (now - pong_timeout_ms) r.peers r v,
      λ id. has-check_all (now - pong_timeout_ms) id r.peers r v.distinct v,
    )
