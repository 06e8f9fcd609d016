-- ===== src/Signaling/Room/Invariant.antt =====
-- What every operation of a room keeps.
use rtcforge.Map
use rtcforge.Map.{Map, Distinct, contains}
use rtcforge.Map.Laws.{contains-keys}
use rtcforge.Prelude.{
  ℕ, suc, ◌≤◌, true, false, List, [], ◌∷◌, Option, none, some, String, ◌≡◌, ◌≢◌, refl, sym, ap,
  subst, ◌∙◌, ◌⊎◌, inl, inr, arith, length, text_key, Bool-cases,
}
use rtcforge.Signaling.Protocol.{ServerMessage}
use rtcforge.Signaling.Peer.{WebSocket, Peer}
use rtcforge.Signaling.Room.State.{
  Room, RoomState, RoomEvent, peer_error, is_active, emit, reset_idle_timer,
}
use rtcforge.Signaling.Room.Sending.{
  is_excluded, send_loop, emit_errors, send_to_all, broadcast, broadcast_except,
}

-- No more than the limit, if there is one.
abbrev pub IsWithin : Option ℕ → ℕ → Type 0
IsWithin none size = Unit
IsWithin (some max) size = size ≤ max

-- Between two operations a room is never `Closing`; once closed it has no peers and no timers; the
-- idle timer runs only while the room is active.
pub record IsValid {D S : Type 0} (r : Room D S) : Type 0 where
  pub distinct : Distinct (Map.keys r.peers)
  pub within : IsWithin r.max_peers (length r.peers)
  pub distinct_meta : Distinct (Map.keys r.peer_meta)
  pub known_meta : (id : String) → Map.has id r.peers ≡ false → Map.has id r.peer_meta ≡ false
  pub not_closing : r.state ≢ RoomState.closing
  pub over_empty : r.state ≡ RoomState.closed → r.peers ≡ []
  pub fresh_empty : r.state ≡ RoomState.creating → r.peers ≡ []
  pub over_quiet : r.state ≡ RoomState.closed → (r.duration_timer ≡ false) × (r.idle_timer ≡ false)
  pub idle_active : r.idle_timer ≡ true → r.state ≡ RoomState.active

-- What sending does to a room: the peers' own fields, the idle timer of an active room, and the log.
pub record Sent {D S : Type 0} (r r' : Room D S) : Type 0 where
  pub same_keys : Map.keys r'.peers ≡ Map.keys r.peers
  pub same_state : r'.state ≡ r.state
  pub same_max : r'.max_peers ≡ r.max_peers
  pub same_meta : r'.peer_meta ≡ r.peer_meta
  pub same_duration : r'.duration_timer ≡ r.duration_timer
  pub same_keep : r'.keep_alive_on_empty ≡ r.keep_alive_on_empty
  pub idle_active : r'.idle_timer ≡ true → (r.idle_timer ≡ true) ⊎ (r.state ≡ RoomState.active)

length-keys {ℓ} : {V : Type ℓ} (m : Map String V) → length (Map.keys m) ≡ length m
length-keys [] = refl
length-keys ((k, v) ∷ m) = ap suc (length-keys m)

pub empty_of_keys {ℓ} : {V : Type ℓ} (m : Map String V) → Map.keys m ≡ [] → m ≡ []
empty_of_keys [] e = refl
empty_of_keys ((k, v) ∷ m) e = ground arith

active_of_is_active : (s : RoomState) → is_active s ≡ true → s ≡ RoomState.active
active_of_is_active s e = ground arith

module _ {D S : Type 0} where
  pub Sent-IsValid : {r r' : Room D S} → Sent r r' → IsValid r → IsValid r'
  Sent-IsValid {r} {r'} s v =
      let same_length : length r'.peers ≡ length r.peers =
        sym (length-keys r'.peers) ∙ ap length s.same_keys ∙ length-keys r.peers in
      let same_has = λ (id : String).
        sym (contains-keys id r'.peers) ∙ ap (contains id) s.same_keys ∙ contains-keys id r.peers in
      record {
        distinct = subst Distinct (sym s.same_keys) v.distinct;
        within =
            subst (IsWithin r'.max_peers) (sym same_length)
              (subst (λ m. IsWithin m (length r.peers)) (sym s.same_max) v.within);
        distinct_meta = subst (λ m. Distinct (Map.keys m)) (sym s.same_meta) v.distinct_meta;
        known_meta =
            λ id absent. ap (Map.has id) s.same_meta ∙ v.known_meta id (sym (same_has id) ∙ absent);
        not_closing = λ e. v.not_closing (sym s.same_state ∙ e);
        over_empty = λ e.
            empty_of_keys r'.peers
              (s.same_keys ∙ ap Map.keys (v.over_empty (sym s.same_state ∙ e)));
        fresh_empty = λ e.
            empty_of_keys r'.peers
              (s.same_keys ∙ ap Map.keys (v.fresh_empty (sym s.same_state ∙ e)));
        over_quiet = λ e. ground (arith, s.idle_active, v.over_quiet);
        idle_active = λ e. ground (arith, s.idle_active, v.idle_active);
      }

  pub Sent-refl : (r : Room D S) → Sent r r
  Sent-refl r = ground arith

  pub Sent-trans : {r s t : Room D S} → Sent r s → Sent s t → Sent r t
  Sent-trans a b = record {
    same_keys = b.same_keys ∙ a.same_keys;
    same_state = b.same_state ∙ a.same_state;
    same_max = b.same_max ∙ a.same_max;
    same_meta = b.same_meta ∙ a.same_meta;
    same_duration = b.same_duration ∙ a.same_duration;
    same_keep = b.same_keep ∙ a.same_keep;
    idle_active = ground (arith, a.idle_active, b.idle_active);
  }

  pub emit-Sent : (e : RoomEvent D S) (r : Room D S) → Sent r (emit e r)
  unfolding emit
  emit-Sent e r = ground arith

  pub reset_idle_timer-Sent : (r : Room D S) → Sent r (reset_idle_timer r)
  unfolding reset_idle_timer
  reset_idle_timer-Sent r = ground (arith, active_of_is_active r.state)

  pub peers-Sent :
      (peers : Map String (Peer D S)) (r : Room D S)
      → Map.keys peers ≡ Map.keys r.peers
      → Sent r (record r { peers = peers })
  peers-Sent peers r e = ground arith

  module _ (ws : WebSocket D S) where
    keys-send_loop :
        (msg : ServerMessage D) (excluded : Option String) (peers : Map String (Peer D S))
        → Map.keys (send_loop ws msg excluded peers).0 ≡ Map.keys peers
    unfolding send_loop
    keys-send_loop msg excluded [] = refl
    keys-send_loop msg excluded ((id, p) ∷ peers) = elim (Bool-cases (is_excluded excluded id)) [
      | inl skipped ↦ rw skipped (ap (◌∷◌ id) (keys-send_loop msg excluded peers))
      | inr told ↦ rw told (ap (◌∷◌ id) (keys-send_loop msg excluded peers))
    ]

    emit_errors-Sent : (ids : List String) (r : Room D S) → Sent r (emit_errors ws ids r)
    unfolding emit_errors
    emit_errors-Sent [] r = Sent-refl r
    emit_errors-Sent (id ∷ ids) r =
        Sent-trans (emit-Sent (peer_error id) r) (emit_errors-Sent ids (emit (peer_error id) r))

    pub send_to_all-Sent :
        (msg : ServerMessage D) (excluded : Option String) (r : Room D S)
        → Sent r (send_to_all ws msg excluded r).0
    unfolding send_to_all
    send_to_all-Sent msg excluded r =
        let r' = reset_idle_timer r in
        let looped = send_loop ws msg excluded r'.peers in
        Sent-trans (reset_idle_timer-Sent r) (
          Sent-trans (peers-Sent looped.0 r' (keys-send_loop msg excluded r'.peers))
            (emit_errors-Sent looped.1 (record r' { peers = looped.0 })))

    pub broadcast-Sent : (msg : ServerMessage D) (r : Room D S) → Sent r (broadcast ws msg r).0
    unfolding broadcast
    broadcast-Sent msg r = send_to_all-Sent msg none r

    pub broadcast_except-Sent :
        (excluded : String) (msg : ServerMessage D) (r : Room D S)
        → Sent r (broadcast_except ws excluded msg r).0
    unfolding broadcast_except
    broadcast_except-Sent excluded msg r = send_to_all-Sent msg (some excluded) r
