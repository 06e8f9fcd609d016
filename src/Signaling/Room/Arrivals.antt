-- ===== src/Signaling/Room/Arrivals.antt =====
-- Adding a peer keeps a room well formed.
use rtcforge.Map
use rtcforge.Map.{Map, Distinct}
use rtcforge.Map.Laws.{
  get-set_self, has-set, has-delete-le, has_of_get, set-Distinct, delete-Distinct, length-set_old,
  length-set_new, length-delete, keys-set_old,
}
use rtcforge.Prelude.{
  ℕ, suc, ◌≤◌, Bool, true, false, not, ◌&&◌, List, Option, none, some, String, ◌≡◌, refl, sym, ap,
  subst, ◌∙◌, inl, inr, arith, if◌then◌else◌, length, text_key, Bool-cases,
}
use rtcforge.Signaling.Protocol.{ServerMessage, Dictionary, IceServerConfig}
use rtcforge.Signaling.Peer.{WebSocket, Peer, send}
use rtcforge.Signaling.Room.State.{
  Room, RoomState, peer_joined, is_given, is_over, is_full, emit, transition_to, reset_idle_timer,
  legal, non_empty,
}
use rtcforge.Signaling.Room.Joining.{
  set_meta, roster, replace, announce, seat, unseat, welcome, settle, enter, add_found, add_peer,
}
use rtcforge.Signaling.Room.Invariant.{
  IsWithin, IsValid, Sent, Sent-IsValid, Sent-trans, Sent-refl, peers-Sent, emit-Sent,
  reset_idle_timer-Sent, broadcast_except-Sent,
}
use rtcforge.Signaling.Room.Departures.{known-delete, empty_of_length, IsWithin-le}

-- There is a place for the peer: its own, or a free one.
abbrev pub HasPlace : {V : Type 0} → Option V → Option ℕ → ℕ → Type 0
HasPlace (some v) max size = Unit
HasPlace none max size = is_full max size ≡ false

IsWithin-suc : (max : Option ℕ) (size : ℕ) → is_full max size ≡ false → IsWithin max (suc size)
IsWithin-suc none size free = tt
IsWithin-suc (some max) size free = ground arith

IsWithin-set :
    {V : Type 0} (id : String) (v : V) (m : Map String V) (o : Option V) (max : Option ℕ)
    → Map.get id m ≡ o
    → HasPlace o max (length m)
    → IsWithin max (length m)
    → IsWithin max (length (Map.set id v m))
IsWithin-set id v m none max absent free w =
    subst (IsWithin max) (sym (length-set_new id v m absent)) (IsWithin-suc max (length m) free)
IsWithin-set id v m (some old) max found free w =
    subst (IsWithin max) (sym (length-set_old id v old m found)) w

length-delete-set-le :
    {V : Type 0} (id : String) (v : V) (m : Map String V) (o : Option V)
    → Map.get id m ≡ o
    → length (Map.delete id (Map.set id v m)) ≤ length m
length-delete-set-le id v m none absent =
    omega (
      arith,
      length-set_new id v m absent,
      length-delete id v (Map.set id v m) (get-set_self id v m),
    )
length-delete-set-le id v m (some old) found = omega (
  arith,
  length-set_old id v old m found,
  length-delete id v (Map.set id v m) (get-set_self id v m),
)

pub activates :
    (s : RoomState)
    → is_over s ≡ false
    → (if legal s RoomState.active then RoomState.active else s) ≡ RoomState.active
activates s going = ground arith

module _ {D S : Type 0} where
  set_meta-Distinct :
      (peer : Peer D S) (meta : Map String Dictionary)
      → Distinct (Map.keys meta)
      → Distinct (Map.keys (set_meta peer meta))
  unfolding set_meta
  set_meta-Distinct peer meta d = elim (Bool-cases (non_empty peer.metadata)) [
    | inl given ↦ rw given (set-Distinct peer.id peer.metadata meta d)
    | inr none' ↦ rw none' (delete-Distinct peer.id meta d)
  ]

  known-set_meta :
      (peer : Peer D S) (j : String) (peers : Map String (Peer D S)) (meta : Map String Dictionary)
      → (Map.has j peers ≡ false → Map.has j meta ≡ false)
      → Map.has j (Map.set peer.id peer peers) ≡ false
      → Map.has j (set_meta peer meta) ≡ false
  unfolding set_meta
  known-set_meta peer j peers meta known absent = elim (Bool-cases (non_empty peer.metadata)) [
    | inl given ↦
        rw given (
          ground (arith, has-set peer.id j peer peers, has-set peer.id j peer.metadata meta, known))
    | inr none' ↦
        rw none'
          (has-delete-le peer.id j meta (known (ground (arith, has-set peer.id j peer peers))))
  ]

  abbrev activated : Room D S → Room D S
  activated r = record r { state = RoomState.active }

  activated-Sent : {r r' : Room D S} → Sent r r' → Sent (activated r) (activated r')
  activated-Sent s = record {
    same_keys = s.same_keys;
    same_state = refl;
    same_max = s.same_max;
    same_meta = s.same_meta;
    same_duration = s.same_duration;
    same_keep = s.same_keep;
    idle_active = λ up. inr refl;
  }

  seat-IsValid :
      (peer : Peer D S) (r : Room D S)
      → HasPlace (Map.get peer.id r.peers) r.max_peers (length r.peers)
      → IsValid r
      → IsValid (activated (seat peer r))
  unfolding seat
  seat-IsValid peer r place v = record {
    distinct = set-Distinct peer.id peer r.peers v.distinct;
    within =
        IsWithin-set peer.id peer r.peers (Map.get peer.id r.peers) r.max_peers refl place v.within;
    distinct_meta = set_meta-Distinct peer r.peer_meta v.distinct_meta;
    known_meta = λ j absent. known-set_meta peer j r.peers r.peer_meta (v.known_meta j) absent;
    not_closing = λ e. cc;
    over_empty = λ e. absurd (cc);
    fresh_empty = λ e. absurd (cc);
    over_quiet = λ e. absurd (cc);
    idle_active = λ e. refl;
  }

  unseat-IsValid :
      (peer : Peer D S) (r : Room D S)
      → is_over r.state ≡ false
      → IsValid r
      → IsValid (unseat peer.id (seat peer r))
  unfolding seat unseat
  unseat-IsValid peer r going v =
      let i = seat peer r in
      let less = length-delete-set-le peer.id peer r.peers (Map.get peer.id r.peers) refl in
      record {
        distinct = delete-Distinct peer.id i.peers (set-Distinct peer.id peer r.peers v.distinct);
        within =
            IsWithin-le r.max_peers (length (Map.delete peer.id i.peers)) (length r.peers) less
              v.within;
        distinct_meta =
            delete-Distinct peer.id i.peer_meta
              (set_meta-Distinct peer r.peer_meta v.distinct_meta);
        known_meta = λ j absent.
            known-delete peer.id j i.peers i.peer_meta
              (set_meta-Distinct peer r.peer_meta v.distinct_meta)
              (known-set_meta peer j r.peers r.peer_meta (v.known_meta j)) absent;
        not_closing = v.not_closing;
        over_empty = λ e. absurd (ground arith);
        fresh_empty = λ e.
            empty_of_length (Map.delete peer.id i.peers)
              (omega (arith, less, ap length (v.fresh_empty e)));
        over_quiet = v.over_quiet;
        idle_active = v.idle_active;
      }

  pub replace-Sent :
      (ws : WebSocket D S) (o : Option (Peer D S)) (r : Room D S) → Sent r (replace ws o r)
  unfolding replace
  replace-Sent ws none r = Sent-refl r
  replace-Sent ws (some existing) r = emit-Sent _ r

  pub announce-Sent :
      (ws : WebSocket D S) (o : Option (Peer D S)) (peer : Peer D S) (r : Room D S)
      → Sent r (announce ws o peer r)
  unfolding announce
  announce-Sent ws (some existing) peer r = Sent-refl r
  announce-Sent ws none peer r =
      Sent-trans
        (broadcast_except-Sent ws peer.id
          (ServerMessage.peer_joined peer.id peer.role peer.metadata) r)
        (broadcast_except-Sent ws peer.id (ServerMessage.presence_online peer.id) _)

  -- A room that is not over becomes active, whatever was sent meanwhile.
  activated-IsValid :
      (r told : Room D S)
      → is_over r.state ≡ false
      → IsValid (activated r)
      → Sent r told
      → IsValid (transition_to RoomState.active told)
  unfolding transition_to
  activated-IsValid r told going v s =
      let active = activates told.state (ap is_over s.same_state ∙ going) in
      subst (λ state. IsValid (record told { state = state })) (sym active)
        (Sent-IsValid (activated-Sent s) v)

  module _ (ws : WebSocket D S) where
    welcome-IsValid :
        (o : Option (Peer D S)) (id : String) (old peer : Peer D S) (r : Room D S)
        → is_over r.state ≡ false
        → Map.get id r.peers ≡ some old
        → IsValid (activated r)
        → IsValid (welcome ws o id peer r)
    unfolding welcome
    welcome-IsValid o id old peer r going found v =
        let joined : Room D S = record r { peers = Map.set id peer r.peers } in
        let put =
          peers-Sent (Map.set id peer r.peers) r
            (keys-set_old id peer r.peers (has_of_get id r.peers old found)) in
        let active =
          activated-IsValid r (announce ws o peer joined) going v
            (Sent-trans put (announce-Sent ws o peer joined)) in
        let ready = transition_to RoomState.active (announce ws o peer joined) in
        Sent-IsValid
          (Sent-trans (reset_idle_timer-Sent ready)
            (emit-Sent (peer_joined peer) (reset_idle_timer ready)))
          active

    settle-IsValid :
        (o : Option (Peer D S)) (peer : Peer D S) (outcome : Peer D S × Bool) (r : Room D S)
        → is_over r.state ≡ false
        → HasPlace (Map.get peer.id r.peers) r.max_peers (length r.peers)
        → IsValid r
        → IsValid (settle ws o peer.id outcome (seat peer r)).0
    unfolding settle seat
    settle-IsValid o peer (peer', true) r going place v = unseat-IsValid peer r going v
    settle-IsValid o peer (peer', false) r going place v =
        welcome-IsValid o peer.id peer peer' (seat peer r) going (get-set_self peer.id peer r.peers)
          (seat-IsValid peer r place v)

    enter-IsValid :
        (o : Option (Peer D S)) (peer : Peer D S) (servers : Option (List IceServerConfig))
        (r : Room D S)
        → is_over r.state ≡ false
        → HasPlace (Map.get peer.id r.peers) r.max_peers (length r.peers)
        → IsValid r
        → IsValid (enter ws o peer servers r).0
    unfolding enter replace emit
    enter-IsValid none peer servers r going place v =
        settle-IsValid none peer (send ws (roster peer servers (seat peer r)) peer) r going place v
    enter-IsValid (some old) peer servers r going place v =
        let left = replace ws (some old) r in
        settle-IsValid (some old) peer (send ws (roster peer servers (seat peer left)) peer) left
          going place (Sent-IsValid (replace-Sent ws (some old) r) v)

    place_of :
        (o : Option (Peer D S)) (max : Option ℕ) (size : ℕ)
        → (not (is_given o) && is_full max size) ≡ false
        → HasPlace o max size
    place_of none max size free = free
    place_of (some old) max size free = tt

    add_found-IsValid :
        (o : Option (Peer D S)) (peer : Peer D S) (servers : Option (List IceServerConfig))
        (r : Room D S)
        → Map.get peer.id r.peers ≡ o
        → IsValid r
        → IsValid (add_found ws o peer servers r).0
    unfolding add_found
    add_found-IsValid o peer servers r found v = elim (Bool-cases (is_over r.state)) [
      | inl over ↦ rw over v
      | inr going ↦ elim (Bool-cases (not (is_given o) && is_full r.max_peers (length r.peers))) [
        | inl full ↦ rw (going, full) v
        | inr free ↦
            rw (going, free)
              (enter-IsValid o peer servers r going
                (subst (λ x. HasPlace x r.max_peers (length r.peers)) (sym found)
                  (place_of o r.max_peers (length r.peers) free))
                v)
      ]
    ]

    pub add_peer-IsValid :
        (peer : Peer D S) (servers : Option (List IceServerConfig)) (r : Room D S)
        → IsValid r
        → IsValid (add_peer ws peer servers r).0
    unfolding add_peer
    add_peer-IsValid peer servers r v =
        add_found-IsValid (Map.get peer.id r.peers) peer servers r refl v
