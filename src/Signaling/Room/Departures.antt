-- ===== src/Signaling/Room/Departures.antt =====
-- The operations by which peers leave keep a room well formed.
use rtcforge.Map
use rtcforge.Map.{Map, Distinct}
use rtcforge.Map.Laws.{
  has_of_get, has-delete_self, has-delete_ne, delete-Distinct, length-delete, keys-set_old,
}
use rtcforge.Prelude.{
  ℕ, ◌≤◌, Bool, true, false, not, ◌&&◌, List, [], ◌∷◌, Option, none, some, String, ◌≡◌, ◌≢◌, refl,
  sym, ap, subst, ◌∙◌, inl, inr, arith, ◌==◌, ◌===◌, if◌then◌else◌, length, text_key, Bool-cases,
  eq_of_same, ne_of_same, same_self,
}
use rtcforge.Signaling.Protocol.{ServerMessage, room_expired}
use rtcforge.Signaling.Peer.{WebSocket, Peer}
use rtcforge.Signaling.Room.State.{
  Room, RoomState, peer_left, closed, peer_kicked, is_over, emit, transition_to, clear_timers,
  legal, dispose,
}
use rtcforge.Signaling.Room.Leaving.{
  last_left, remove_found, remove_peer, kick_found, prune_found, closed_found, expel, force_close,
}
use rtcforge.Signaling.Room.Invariant.{
  IsWithin, IsValid, Sent, empty_of_keys, Sent-IsValid, Sent-trans, Sent-refl, peers-Sent,
  emit-Sent, broadcast-Sent, broadcast_except-Sent,
}
use rtcforge.Signaling.Room.Sending.{broadcast_except, broadcast}

pub IsWithin-le : (o : Option ℕ) (a b : ℕ) → a ≤ b → IsWithin o b → IsWithin o a
IsWithin-le none a b h w = tt
IsWithin-le (some max) a b h w = omega arith

pub IsWithin-zero : (o : Option ℕ) → IsWithin o 0
IsWithin-zero none = tt
IsWithin-zero (some max) = omega arith

pub empty_of_length {ℓ} : {A : Type ℓ} (xs : List A) → length xs ≡ 0 → xs ≡ []
empty_of_length [] e = refl
empty_of_length (x ∷ xs) e = absurd (omega arith)

none≢some {ℓ} : {A : Type ℓ} {a : A} → none ≢ some a
none≢some e = ground arith

not_empty_of_get :
    {V : Type 0} (id : String) (v : V) (m : Map String V) → Map.get id m ≡ some v → m ≢ []
unfolding Map.get
not_empty_of_get id v m found e = none≢some (sym (ap (Map.get id) e) ∙ found)

empty_of_absent {ℓ} :
    {V : Type ℓ} (m : Map String V) → ((id : String) → Map.has id m ≡ false) → m ≡ []
unfolding Map.has
empty_of_absent [] absent = refl
empty_of_absent ((k, v) ∷ m) absent = ground (arith, absent k, same_self k)

-- What is known of no key of `m` is known of no key of `m` without `i`.
pub known-delete :
    {V W : Type 0} (i j : String) (m : Map String V) (n : Map String W)
    → Distinct (Map.keys n)
    → (Map.has j m ≡ false → Map.has j n ≡ false)
    → Map.has j (Map.delete i m) ≡ false
    → Map.has j (Map.delete i n) ≡ false
known-delete i j m n d known absent = elim (Bool-cases (i === j)) [
  | inl same ↦
      subst (λ k. Map.has k (Map.delete i n) ≡ false) (eq_of_same i j same) (has-delete_self i n d)
  | inr other ↦
      let ne = ne_of_same i j other in
      has-delete_ne i j n ne ∙ known (sym (has-delete_ne i j m ne) ∙ absent)
]

active_of :
    (s : RoomState)
    → s ≢ RoomState.creating
    → s ≢ RoomState.closing
    → s ≢ RoomState.closed
    → s ≡ RoomState.active
active_of RoomState.creating a b c = absurd (a refl)
active_of RoomState.active a b c = refl
active_of RoomState.closing a b c = absurd (b refl)
active_of RoomState.closed a b c = absurd (c refl)

-- From every state a room can be closed.
ends :
    (s : RoomState) → (if legal s RoomState.closed then RoomState.closed else s) ≡ RoomState.closed
ends s = ground arith

closes :
    (s : RoomState)
    → is_over s ≡ false
    → (if legal s RoomState.closing then RoomState.closing else s) ≡ RoomState.closing
closes s going = ground arith

closing≢active : RoomState.closing ≢ RoomState.active
closing≢active e = cc

false_of : (b : Bool) → b ≢ true → b ≡ false
false_of b ne = ground (arith, Bool-cases b)

zero_of_test : (n : ℕ) (b : Bool) → (n == 0 && b) ≡ true → n ≡ 0
zero_of_test n b e = ground arith

module _ {D S : Type 0} where
  idle_off :
      {r r' : Room D S}
      → Sent r r'
      → r.idle_timer ≡ false
      → r.state ≢ RoomState.active
      → r'.idle_timer ≡ false
  idle_off {r} {r'} s off inactive =
      false_of r'.idle_timer (λ up. ground (arith, s.idle_active up, inactive))

  -- The room without the peer.
  abbrev pub without : String → Room D S → Room D S
  without id r = record r { peers = Map.delete id r.peers; peer_meta = Map.delete id r.peer_meta }

  -- A room that holds a peer is active.
  pub active_of_member :
      (id : String) (peer : Peer D S) (r : Room D S)
      → IsValid r
      → Map.get id r.peers ≡ some peer
      → r.state ≡ RoomState.active
  active_of_member id peer r v found =
      let full = not_empty_of_get id peer r.peers found in
      active_of r.state (λ e. full (v.fresh_empty e)) v.not_closing (λ e. full (v.over_empty e))

  without-IsValid :
      (id : String) (peer : Peer D S) (r : Room D S)
      → Map.get id r.peers ≡ some peer
      → IsValid r
      → IsValid (without id r)
  without-IsValid id peer r found v = record {
    distinct = delete-Distinct id r.peers v.distinct;
    within =
        IsWithin-le r.max_peers (length (Map.delete id r.peers)) (length r.peers)
          (omega (arith, length-delete id peer r.peers found)) v.within;
    distinct_meta = delete-Distinct id r.peer_meta v.distinct_meta;
    known_meta =
        λ j absent. known-delete id j r.peers r.peer_meta v.distinct_meta (v.known_meta j) absent;
    not_closing = v.not_closing;
    over_empty = λ e. absurd (not_empty_of_get id peer r.peers found (v.over_empty e));
    fresh_empty = λ e. absurd (not_empty_of_get id peer r.peers found (v.fresh_empty e));
    over_quiet = v.over_quiet;
    idle_active = v.idle_active;
  }

  -- A room that is over: closed, empty and quiet.
  over-IsValid :
      (r : Room D S)
      → r.state ≡ RoomState.closed
      → r.peers ≡ []
      → r.peer_meta ≡ []
      → r.duration_timer ≡ false
      → r.idle_timer ≡ false
      → IsValid r
  unfolding Map.has
  over-IsValid r over empty empty_meta quiet idle = record {
    distinct = subst (λ m. Distinct (Map.keys m)) (sym empty) tt;
    within = subst (λ m. IsWithin r.max_peers (length m)) (sym empty) (IsWithin-zero r.max_peers);
    distinct_meta = subst (λ m. Distinct (Map.keys m)) (sym empty_meta) tt;
    known_meta = λ id absent. ap (Map.has id) empty_meta;
    not_closing = λ e. ground arith;
    over_empty = λ e. empty;
    fresh_empty = λ e. empty;
    over_quiet = λ e. (quiet, idle);
    idle_active = λ e. ground arith;
  }

  meta_of_empty : (r : Room D S) → IsValid r → r.peers ≡ [] → r.peer_meta ≡ []
  unfolding Map.has
  meta_of_empty r v empty =
      empty_of_absent r.peer_meta (λ id. v.known_meta id (ap (Map.has id) empty))

  -- The last peer has left: the room closes.
  last_left-IsValid :
      (peer : Peer D S) (r : Room D S)
      → r.state ≡ RoomState.active
      → IsValid r
      → r.peers ≡ []
      → IsValid (last_left peer r)
  unfolding last_left emit transition_to clear_timers
  last_left-IsValid peer r active v empty =
      over-IsValid (last_left peer r) (ground arith) empty (meta_of_empty r v empty) refl refl

  module _ (ws : WebSocket D S) where
    remove_found-IsValid :
        (id : String) (o : Option (Peer D S)) (r : Room D S)
        → Map.get id r.peers ≡ o
        → IsValid r
        → IsValid (remove_found ws id o r)
    unfolding remove_found
    remove_found-IsValid id none r found v = v
    remove_found-IsValid id (some peer) r found v =
        let gone = without id r in
        let v' = without-IsValid id peer r found v in
        let left = broadcast_except-Sent ws id (ServerMessage.peer_left id) gone in
        let told = (broadcast_except ws id (ServerMessage.peer_left id) gone).0 in
        let offline = broadcast_except-Sent ws id (ServerMessage.presence_offline id) told in
        let told' = (broadcast_except ws id (ServerMessage.presence_offline id) told).0 in
        elim (Bool-cases (length gone.peers == 0 && not r.keep_alive_on_empty)) [
          | inl last ↦
              let empty =
                empty_of_length gone.peers
                  (zero_of_test (length gone.peers) (not r.keep_alive_on_empty) last) in
              rw last (last_left-IsValid peer gone (active_of_member id peer r v found) v' empty)
          | inr others ↦ rw others (
              Sent-IsValid (Sent-trans left (Sent-trans offline (emit-Sent (peer_left peer) told')))
                v')
        ]

    pub remove_peer-IsValid :
        (id : String) (r : Room D S) → IsValid r → IsValid (remove_peer ws id r)
    unfolding remove_peer
    remove_peer-IsValid id r v = remove_found-IsValid id (Map.get id r.peers) r refl v

    pub member-Sent :
        (id : String) (peer peer' : Peer D S) (r : Room D S)
        → Map.get id r.peers ≡ some peer
        → Sent r (record r { peers = Map.set id peer' r.peers })
    member-Sent id peer peer' r found =
        peers-Sent (Map.set id peer' r.peers) r
          (keys-set_old id peer' r.peers (has_of_get id r.peers peer found))

    pub kick_found-IsValid :
        (id : String) (reason : Option String) (o : Option (Peer D S)) (r : Room D S)
        → Map.get id r.peers ≡ o
        → IsValid r
        → IsValid (kick_found ws id reason o r).0
    unfolding kick_found
    kick_found-IsValid id reason none r found v = v
    kick_found-IsValid id reason (some peer) r found v =
        Sent-IsValid (emit-Sent (peer_kicked id reason) _)
          (remove_peer-IsValid id _ (Sent-IsValid (member-Sent id peer _ r found) v))

    pub prune_found-IsValid :
        (id : String) (code : ℕ) (reason : String) (o : Option (Peer D S)) (r : Room D S)
        → Map.get id r.peers ≡ o
        → IsValid r
        → IsValid (prune_found ws id code reason o r).0
    unfolding prune_found
    prune_found-IsValid id code reason none r found v = v
    prune_found-IsValid id code reason (some peer) r found v =
        remove_peer-IsValid id _ (Sent-IsValid (member-Sent id peer _ r found) v)

    pub closed_found-IsValid :
        (id : String) (conn : ℕ) (o : Option (Peer D S)) (r : Room D S)
        → IsValid r
        → IsValid (closed_found ws id conn o r)
    unfolding closed_found
    closed_found-IsValid id conn none r v = v
    closed_found-IsValid id conn (some peer) r v = elim (Bool-cases (peer.conn == conn)) [
      | inl own ↦ rw own (remove_peer-IsValid id r v)
      | inr other ↦ rw other v
    ]

    expel-Sent : (peers : Map String (Peer D S)) (r : Room D S) → Sent r (expel ws peers r)
    unfolding expel
    expel-Sent [] r = Sent-refl r
    expel-Sent ((id, p) ∷ peers) r = Sent-trans (emit-Sent _ r) (expel-Sent peers _)

    expelled-IsValid :
        (peers : Map String (Peer D S)) (r : Room D S)
        → r.peers ≡ []
        → r.peer_meta ≡ []
        → r.duration_timer ≡ false
        → r.idle_timer ≡ false
        → r.state ≢ RoomState.active
        → IsValid (emit closed (transition_to RoomState.closed (expel ws peers r)))
    unfolding emit transition_to
    expelled-IsValid peers r empty empty_meta quiet idle inactive =
        let s = expel-Sent peers r in
        over-IsValid (emit closed (transition_to RoomState.closed (expel ws peers r)))
          (ends (expel ws peers r).state)
          (empty_of_keys (expel ws peers r).peers (s.same_keys ∙ ap Map.keys empty))
          (s.same_meta ∙ empty_meta) (s.same_duration ∙ quiet)
          (idle_off (expel-Sent peers r) idle inactive)

    pub force_close-IsValid : (r : Room D S) → IsValid r → IsValid (force_close ws r)
    unfolding force_close transition_to clear_timers
    force_close-IsValid r v =
        let ending = clear_timers (transition_to RoomState.closing r) in
        let note : ServerMessage D = ServerMessage.error "ROOM_EXPIRED" room_expired in
        let sent = broadcast-Sent ws note ending in
        let told = (broadcast ws note ending).0 in
        let emptied : Room D S = record told { peers = []; peer_meta = [] } in
        elim (Bool-cases (is_over r.state)) [
          | inl over ↦ rw over v
          | inr going ↦
              let state = closes r.state going in
              let inactive =
                λ (e : ending.state ≡ RoomState.active). closing≢active (sym state ∙ e) in
              rw going (
                expelled-IsValid told.peers emptied refl refl sent.same_duration
                  (idle_off sent refl inactive) (λ e. inactive (sym sent.same_state ∙ e)))
        ]

  pub dispose-IsValid : (r : Room D S) → IsValid r → IsValid (dispose r)
  unfolding dispose transition_to clear_timers
  dispose-IsValid r v = over-IsValid (dispose r) (ends r.state) refl refl refl refl
