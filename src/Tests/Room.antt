-- ===== src/Tests/Room.antt =====
-- A room of two with an idle timeout; a socket is whether it is open.
use rtcforge.Map
use rtcforge.Prelude.{
  ℕ, ◌-◌, ◌≤◌, Bool, true, false, not, ◌&&◌, text_key, [], ◌∷◌, ◌++◌, none, some, String, ◌≡◌, refl,
}
use rtcforge.Signaling.Protocol.{normal, replaced_by_reconnection}
use rtcforge.Signaling.Peer.{WebSocket, Peer, new_peer, disconnect}
use rtcforge.Signaling.Peer.Truncation.{truncate_utf8, byte_length, Begins, truncate_utf8_fits}
use rtcforge.Signaling.Peer.Utf16.{utf16}
use rtcforge.Signaling.Room.State.{
  Room, RoomState, RoomOptions, new_room, dispose, peer_left, transition_to, clear_timers,
}
use rtcforge.Signaling.Room.Joining.{
  threw, add_peer, add_found, enter, settle, welcome, announce, seat, set_meta, replace,
}
use rtcforge.Signaling.Room.Invariant.{IsValid}
use rtcforge.Signaling.Room.Life.{Reach, adds, expires, Room-IsValid, closed_is_final}
use rtcforge.Signaling.Room.Rejoin.{rejoin_strands}
use rtcforge.Signaling.HeartbeatMonitor.{tick}
use rtcforge.Signaling.HeartbeatMonitor.Sweep.{is_stale, tick_lem}
use rtcforge.Signaling.RoomRegistry.{
  RoomRegistry, new_registry, get_or_create, create_found, on_event, on_events, commit,
}
use rtcforge.Signaling.RoomRegistry.Open.{IsOrderly}
use rtcforge.Signaling.RoomRegistry.Life.{RegistryReach, creates, runs, registered_are_open}
use rtcforge.Signaling.Room.Leaving.{force_close}

abbrev wire : WebSocket ℕ Bool
wire = record {
  is_open = λ s. s;
  buffered_amount = λ s. 0;
  send = λ msg s. (s, false);
  close = λ code reason s. false;
}

abbrev options : RoomOptions
options = record {
  max_peers = some 2;
  max_duration_ms = some 60000;
  idle_timeout_ms = some 1000;
  keep_alive_on_empty = none;
}

abbrev client : String → Bool → ℕ → Peer ℕ Bool
client id up conn = new_peer conn 0 (record {
  id = id;
  ws = up;
  role = some "host";
  metadata = none;
  max_messages_per_second = none;
  max_buffered_bytes = none;
})

abbrev empty_room : Room ℕ Bool
empty_room = new_room "r" options

abbrev one_inside : Room ℕ Bool
one_inside = (add_peer wire (client "a" true 0) none empty_room).0

joins : Reach wire empty_room one_inside
joins = Reach.next Reach.here (adds (client "a" true 0) none)

Room-IsValid_example : IsValid one_inside
Room-IsValid_example = Room-IsValid wire "r" options one_inside joins

truncate_utf8_fits_example :
    (byte_length (truncate_utf8 5 (128640 ∷ 97 ∷ [])) ≤ 5)
    × Begins (truncate_utf8 5 (128640 ∷ 97 ∷ [])) (128640 ∷ 97 ∷ [])
    × (byte_length (128640 ∷ 97 ∷ []) ≤ 5 → truncate_utf8 5 (128640 ∷ 97 ∷ []) ≡ 128640 ∷ 97 ∷ [])
truncate_utf8_fits_example = truncate_utf8_fits 5 (128640 ∷ 97 ∷ [])

shut_state : (dispose one_inside).state ≡ RoomState.closed
unfolding dispose clear_timers transition_to add_peer add_found enter settle welcome announce
    new_room new_peer seat set_meta replace rtcforge.Map.get rtcforge.Map.set
shut_state = refl

one_peers : one_inside.peers ≡ ("a", client "a" true 0) ∷ []
unfolding add_peer add_found enter settle welcome announce new_room new_peer seat set_meta replace
    rtcforge.Map.get rtcforge.Map.set
one_peers = refl

closed_is_final_example :
    ((add_peer wire (client "b" true 1) none (dispose one_inside)).0.state ≡ RoomState.closed)
    × ((add_peer wire (client "b" true 1) none (dispose one_inside)).0.peers ≡ [])
closed_is_final_example =
    closed_is_final wire {r = dispose one_inside}
      {r' = (add_peer wire (client "b" true 1) none (dispose one_inside)).0}
      (Room-IsValid wire "r" options (dispose one_inside) (Reach.disposed joins)) shut_state
      (Reach.next Reach.here (adds (client "b" true 1) none))

one_active : one_inside.state ≡ RoomState.active
unfolding add_peer add_found enter settle welcome announce new_room new_peer seat set_meta replace
    rtcforge.Map.get rtcforge.Map.set transition_to
one_active = refl

rejoin_strands_example :
    ((add_peer wire (client "a" false 1) none one_inside).2 ≡ threw)
    × ((add_peer wire (client "a" false 1) none one_inside).0.peers ≡ [])
    × ((add_peer wire (client "a" false 1) none one_inside).0.state ≡ RoomState.active)
    × ((add_peer wire (client "a" false 1) none one_inside).0.events
        ≡ one_inside.events
          ++ (peer_left
                (disconnect wire normal (utf16 replaced_by_reconnection) (client "a" true 0))
              ∷ []))
unfolding new_peer
rejoin_strands_example =
    rejoin_strands wire (client "a" false 1) (client "a" true 0) none one_inside one_peers
      one_active refl

tick_lem_example :
    IsValid (tick wire 100 50 one_inside)
    × ((id : String)
        → Map.has id (tick wire 100 50 one_inside).peers ≡ (
            Map.has id one_inside.peers && not (is_stale (100 - 50) (Map.get id one_inside.peers))))
tick_lem_example = tick_lem wire 100 50 one_inside (Room-IsValid wire "r" options one_inside joins)

abbrev fresh_registry : RoomRegistry ℕ Bool
fresh_registry = (get_or_create "r" (new_registry options)).0

-- A peer joins, and the room then expires.
abbrev joined : RoomRegistry ℕ Bool
joined = commit "r" 0 one_inside fresh_registry

abbrev quiet_room : Room ℕ Bool
quiet_room = record one_inside { events = [] }

abbrev expired : RoomRegistry ℕ Bool
expired = commit "r" 0 (force_close wire quiet_room) joined

found_new : rtcforge.Map.get "r" fresh_registry.rooms ≡ some (0, empty_room)
unfolding get_or_create create_found new_registry rtcforge.Map.get rtcforge.Map.set
found_new = refl

found_joined : rtcforge.Map.get "r" joined.rooms ≡ some (0, quiet_room)
unfolding commit on_events on_event get_or_create create_found new_registry add_peer add_found enter
    settle welcome announce new_room new_peer seat set_meta replace rtcforge.Map.get
    rtcforge.Map.set
found_joined = refl

registered_are_open_example : IsOrderly expired
registered_are_open_example = registered_are_open wire options expired (
    RegistryReach.next
      (RegistryReach.next (RegistryReach.next RegistryReach.here (creates "r"))
        (runs "r" 0 empty_room one_inside found_new (adds (client "a" true 0) none)))
      (runs "r" 0 quiet_room (force_close wire quiet_room) found_joined expires))
